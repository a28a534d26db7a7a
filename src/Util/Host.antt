-- ===== src/Util/Host.antt =====
-- `to_in_addr` of src/util/util.cc, over what the resolver answers. Log lines are left out, but for the
-- warning of several addresses.
pub mod Examples
use robo_band.Base.{ℕ, Bool, true, false}

-- How `getaddrinfo` ends: with an error, or with an address and whether there are more.
pub data Answer : Type 0 where
  failed : Answer
  found : ℕ → Bool → Answer

-- INADDR_NONE.
abbrev pub inaddr_none : ℕ
inaddr_none = 0xffffffff

-- What is asked for: an IPv4 address for datagrams.
pub record Hints : Type 0 where
  pub ai_family : ℕ
  pub ai_socktype : ℕ

abbrev pub hints : Hints
hints = record { ai_family = 2; ai_socktype = 2 }

-- The address as it stands in `s_addr`, and whether it warns of several.
unfoldable pub to_in_addr : (Hints → Answer) → ℕ × Bool
to_in_addr getaddrinfo = elim (getaddrinfo hints) [
  | failed ↦ (inaddr_none, false)
  | found ip more ↦ (ip, more)
]
