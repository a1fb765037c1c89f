-- ===== src/Allocations/Request.antt =====
-- schemas/v1/allocation.py: what an author asks for, and the IPv4 arithmetic of `ipaddress` that
-- reservations use. Texts are parsed and printed by parameters; an address is a number.
use range42_backend_api.Prelude.{
  ℕ, ◌+◌, ◌-◌, ◌^◌, String, Bool, ◌&&◌, Option, List, ltb, nat_eq, string_eq, option_eq, Eq,
}

pub record AllocationNetwork : Type 0 where
  pub network_id : String
  pub bridge : String
  pub subnet : String
  pub gateway : Option String
  pub reserved_ips : List String

pub record AllocationNic : Type 0 where
  pub index : ℕ
  pub nic_key : Option String
  pub network_id : String
  pub ip : Option String

pub record AllocationVm : Type 0 where
  pub node_id : String
  pub vm_id : Option ℕ
  pub nics : List AllocationNic

pub record AllocationRequest : Type 0 where
  pub project_key : String
  pub lease_seconds : ℕ
  pub vmid_start : ℕ
  pub vmid_end : ℕ
  pub networks : List AllocationNetwork
  pub vms : List AllocationVm

-- A pair of a bridge and the text of an address
pub record Address : Type 0 where
  pub bridge : String
  pub ip : String

Address-discrete : Discrete Address
Address-discrete = hlevel (string_eq.dec)

instance unfoldable pub address_eq : Eq Address
unfolding Address-discrete string_eq
address_eq = record { dec = Address-discrete }

-- A subnet: its first address and its prefix length.
pub record Subnet : Type 0 where
  pub first : ℕ
  pub prefix : ℕ

-- `ipaddress`: `IPv4Network(text)`, `IPv4Address(text)` and `str(address)`
pub record Ipv4 : Type 0 where
  pub network : String → Option Subnet
  pub address : String → Option ℕ
  pub text : ℕ → String

abbrev pub size : Subnet → ℕ
size s = 2 ^ (32 - s.prefix)

-- `address in subnet`, and neither its first nor its last
unfoldable pub is_usable : Subnet → ℕ → Bool
is_usable s a = ltb s.first a && ltb (a + 1) (s.first + size s)

-- `subnet.hosts()`, for a prefix of at most 30: how many there are, from `first + 1` on
abbrev pub host_count : Subnet → ℕ
host_count s = size s - 2
