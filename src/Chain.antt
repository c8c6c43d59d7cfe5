-- ===== src/Chain.antt =====
-- chain/params.go: the forks of the chain, and which of them are in force at a block.
use nxchain.Base.{ℕ, Bool, false, Option, none, some, leb}

-- A fork starts at a block; nil is a fork that never starts.
pub record Forks : Type 0 where
  pub homestead : Option ℕ
  pub byzantium : Option ℕ
  pub constantinople : Option ℕ
  pub petersburg : Option ℕ
  pub istanbul : Option ℕ
  pub eip150 : Option ℕ
  pub eip158 : Option ℕ
  pub eip155 : Option ℕ

pub record ForksInTime : Type 0 where
  pub homestead : Bool
  pub byzantium : Bool
  pub constantinople : Bool
  pub petersburg : Bool
  pub istanbul : Bool
  pub eip150 : Bool
  pub eip158 : Bool
  pub eip155 : Bool

unfoldable pub active : Option ℕ → ℕ → Bool
active none block = false
active (some start) block = leb start block

unfoldable pub forks_at : Forks → ℕ → ForksInTime
unfolding active
forks_at f block = record {
  homestead = active f.homestead block;
  byzantium = active f.byzantium block;
  constantinople = active f.constantinople block;
  petersburg = active f.petersburg block;
  istanbul = active f.istanbul block;
  eip150 = active f.eip150 block;
  eip158 = active f.eip158 block;
  eip155 = active f.eip155 block;
}

abbrev pub all_forks_enabled : Forks
all_forks_enabled = record {
  homestead = some 0;
  byzantium = some 0;
  constantinople = some 0;
  petersburg = some 0;
  istanbul = some 0;
  eip150 = some 0;
  eip158 = some 0;
  eip155 = some 0;
}
