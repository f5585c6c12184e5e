-- ===== src/Chain.antt =====
-- apx_core/src/caip2.rs: blockchain identifiers.
use mitra.Prelude.{String, Bool, true, false, ◌&&◌, str_eq}

-- `Namespace` and its derived equality.
pub data Namespace : Type 0 where
  eip155 monero : Namespace

abbrev pub namespace_eq : Namespace → Namespace → Bool
namespace_eq eip155 eip155 = true
namespace_eq monero monero = true
namespace_eq _ _ = false

pub record ChainId : Type 0 where
  pub namespace : Namespace
  pub reference : String

-- The derived `==` of `ChainId`.
abbrev pub chain_eq : ChainId → ChainId → Bool
chain_eq a b = namespace_eq a.namespace b.namespace && str_eq a.reference b.reference

abbrev pub is_monero : ChainId → Bool
is_monero chain = namespace_eq chain.namespace monero

abbrev pub monero_mainnet : ChainId
monero_mainnet = record { namespace = monero; reference = "418015bb9ae982a1975da7d79277c270" }
