-- ===== src/System/LockSetter.antt =====
-- The interface of what sets the child lock, and any interleaving of several such components.
use mbp_t05_child_lock.Base.{◌≡◌, refl, ◌⊎◌, inl, inr, List, [], ◌∷◌}
use mbp_t05_child_lock.Types.{ChildLockState, cl_on}

-- A component that sets the lock. `MayOpen` says which inputs let it open a lock that is on; with any
-- other the lock stays on.
pub record LockSetter : Type 1 where
  pub Input : Type 0
  pub target : Input → ChildLockState → ChildLockState
  pub MayOpen : Input → Type 0
  pub keeps : (i : Input) → (target i cl_on ≡ cl_on) ⊎ MayOpen i

-- Two components that set one lock: in each step, one of them does.
module _ (a b : LockSetter) where
  open a use {Input as InputA, target as target_a, MayOpen as MayOpenA, keeps as keeps_a}
  open b use {Input as InputB, target as target_b, MayOpen as MayOpenB, keeps as keeps_b}

  abbrev pub either_target : InputA ⊎ InputB → ChildLockState → ChildLockState
  either_target (inl i) s = target_a i s
  either_target (inr i) s = target_b i s

  abbrev pub EitherMayOpen : InputA ⊎ InputB → Type 0
  EitherMayOpen (inl i) = MayOpenA i
  EitherMayOpen (inr i) = MayOpenB i

  pub either_keeps : (i : InputA ⊎ InputB) → (either_target i cl_on ≡ cl_on) ⊎ EitherMayOpen i
  either_keeps (inl i) = keeps_a i
  either_keeps (inr i) = keeps_b i

  abbrev pub either : LockSetter
  either = record {
    Input = InputA ⊎ InputB;
    target = either_target;
    MayOpen = EitherMayOpen;
    keeps = either_keeps;
  }

module _ (c : LockSetter) where
  open c use {Input, target, MayOpen, keeps}

  -- The lock after a sequence of inputs, the first one first.
  abbrev pub drive : ChildLockState → List Input → ChildLockState
  drive s [] = s
  drive s (i ∷ is) = drive (target i s) is

  abbrev pub SomeOpens : List Input → Type 0
  SomeOpens [] = ⊥
  SomeOpens (i ∷ is) = MayOpen i ⊎ SomeOpens is

  -- After any sequence a lock that was on is on, or one of the inputs may open it.
  pub drive-keeps : (is : List Input) → (drive cl_on is ≡ cl_on) ⊎ SomeOpens is
  drive-keeps [] = inl refl
  drive-keeps (i ∷ is) = elim (keeps i) [
    | inr opens ↦ inr (inl opens)
    | inl kept ↦ elim (drive-keeps is) [ inl on ↦ inl (rw kept on) | inr opens ↦ inr (inr opens) ]
  ]
