-- ===== src/Evm/Gas/Frames.antt =====
-- What a piece of an instruction yields, and the frame that it keeps.
use nxchain.Base.{
  ℕ, ◌+◌, ◌≤◌, Bool, true, false, Option, none, some, List, ◌≡◌, refl, arith, if◌then◌else◌, ◌>>=◌,
}
use mathlib.Core.Path.{subst}
use mathlib.Core.Option.{some_inj}
use nxchain.State.Runtime.{VmError}
use nxchain.Evm.{State, exit, halt}

-- `P` holds of the value; a panic is not excluded.
pub data Yields {A : Type 0} (P : A → Type 0) : Option A → Type 0 where
  panics : Yields P none
  yields : {a : A} → P a → Yields P (some a)

pub Yields-map :
    {A : Type 0} {P Q : A → Type 0} {r : Option A} → ((a : A) → P a → Q a) → Yields P r → Yields Q r
Yields-map f Yields.panics = Yields.panics
Yields-map f (Yields.yields p) = Yields.yields (f _ p)

pub Yields-some :
    {A : Type 0} {P : A → Type 0} {r : Option A} {a : A} → r ≡ some a → Yields P r → P a
Yields-some e Yields.panics = cc
Yields-some {P = P} e (Yields.yields p) = subst P (some_inj.0 e) p

pub Yields-bind :
    {A B : Type 0} {P : A → Type 0} {Q : B → Type 0} {r : Option A} {k : A → Option B}
    → Yields P r
    → ((a : A) → P a → Yields Q (k a))
    → Yields Q (r >>= k)
Yields-bind Yields.panics h = Yields.panics
Yields-bind (Yields.yields p) h = h _ p

pub Yields-if :
    {A : Type 0} {P : A → Type 0} (b : Bool) {r s : Option A}
    → Yields P r
    → Yields P s
    → Yields P (if b then r else s)
Yields-if true p q = p
Yields-if false p q = q

-- A slice is any bytes, or a panic.
pub Yields-any :
    {A B : Type 0} {Q : B → Type 0} (r : Option A) {k : A → Option B}
    → ((a : A) → Yields Q (k a))
    → Yields Q (r >>= k)
Yields-any none h = Yields.panics
Yields-any (some a) h = h a

-- From `c` to `c'` the code, its bitmap, the forks and the position stay, and `n` of the gas is spent.
pub record Frame {W : Type 0} (n : ℕ) (c c' : State W) : Type 0 where
  pub config : c'.config ≡ c.config
  pub code : c'.code ≡ c.code
  pub bitmap : c'.bitmap ≡ c.bitmap
  pub ip : c'.ip ≡ c.ip
  pub spent : c'.gas + n ≤ c.gas

-- An instruction that stops the run has gained no gas; another has spent at least `n`.
pub data Ends {W : Type 0} (n : ℕ) (c c' : State W) : Type 0 where
  halted : c'.stop ≡ true → Frame 0 c c' → Ends n c c'
  spends : Frame n c c' → Ends n c c'

module _ {W : Type 0} where
  pub Frame-refl : (c : State W) → Frame 0 c c
  Frame-refl c = record {
    config = refl;
    code = refl;
    bitmap = refl;
    ip = refl;
    spent = omega arith;
  }

  pub Frame-weaken : {n m : ℕ} {c c' : State W} → m ≤ n → Frame n c c' → Frame m c c'
  Frame-weaken le f = record {
    config = f.config;
    code = f.code;
    bitmap = f.bitmap;
    ip = f.ip;
    spent = omega (arith, f.spent);
  }

  pub Ends-exit : {n m : ℕ} {c c' : State W} (e : VmError) → Frame m c c' → Ends n c (exit e c')
  unfolding exit
  Ends-exit e f = Ends.halted refl (record {
    config = f.config;
    code = f.code;
    bitmap = f.bitmap;
    ip = f.ip;
    spent = omega (arith, f.spent);
  })

  pub Ends-halt : {n m : ℕ} {c c' : State W} → Frame m c c' → Ends n c (halt c')
  unfolding halt
  Ends-halt f = Ends.halted refl (record {
    config = f.config;
    code = f.code;
    bitmap = f.bitmap;
    ip = f.ip;
    spent = omega (arith, f.spent);
  })

  -- The fields that no frame reads may change.
  pub Frame-stack :
      {n : ℕ} {c c' : State W} (s : List ℕ) → Frame n c c' → Frame n c (record c' { stack = s })
  Frame-stack s f = record {
    config = f.config;
    code = f.code;
    bitmap = f.bitmap;
    ip = f.ip;
    spent = f.spent;
  }
