-- ===== src/Uvc/Commands/Outcome.antt =====
-- plugins/input_uvc/input_uvc.c: what a command of the V4L2 group does to the list of the controls.
use robotica_movel.Prelude.{
  ℕ, zero, suc, ◌+◌, ◌≡◌, ◌≢◌, ◌⊎◌, inl, inr, refl, sym, ap, ◌∙◌, Bool, true, false, List, [], ◌∷◌,
  Option, none, some, ◌==◌, arith, get_elem?, Bool-cases, if_true, if_false, if_cases, ==_iff,
}
use mathlib.Core.Path.{subst}
use native.Mathlib.Decide.{ℕ_discrete}
use robotica_movel.Prelude.Int.{ℤ}
use robotica_movel.Uvc.Commands.{
  Control, Calls, Device, v4l2, find_control, set_value, is_in_range, set_found, v4l2_set_control,
  stored_first, input_cmd,
}

-- The first control has the value.
abbrev pub FirstHas : ℤ → List Control → Type 0
FirstHas value cs = (c : Control) × (get_elem? cs 0 ≡ some c) × (c.value ≡ value)

-- The controls behind the first with another id are as they were.
abbrev pub AreKept : ℕ → List Control → List Control → Type 0
AreKept id cs cs' =
    (j : ℕ) (c : Control)
    → get_elem? cs (suc j) ≡ some c
    → c.id ≢ id
    → get_elem? cs' (suc j) ≡ some c

get_elem?-set_value :
    (i j : ℕ) (value : ℤ) (cs : List Control)
    → j ≢ i
    → get_elem? (set_value i value cs) j ≡ get_elem? cs j
unfolding set_value
get_elem?-set_value i j value [] n = refl
get_elem?-set_value zero zero value (c ∷ cs) n = absurd (n refl)
get_elem?-set_value zero (suc j) value (c ∷ cs) n = refl
get_elem?-set_value (suc i) zero value (c ∷ cs) n = refl
get_elem?-set_value (suc i) (suc j) value (c ∷ cs) n =
    get_elem?-set_value i j value cs (λ e. n (ap suc e))

abbrev found_or : ℕ × Control → Option (ℕ × Control) → ℕ × Control
found_or x none = x
found_or x (some y) = y

find_control_lem :
    (id k : ℕ) (cs : List Control) (i : ℕ) (c : Control)
    → find_control id k cs ≡ some (i, c)
    → (j : ℕ) × (i ≡ k + j) × (get_elem? cs j ≡ some c) × (c.id ≡ id)
unfolding find_control
find_control_lem id k [] i c h = absurd cc
find_control_lem id k (d ∷ cs) i c h = elim (Bool-cases (d.id == id)) [
  | inl e ↦
      let same = sym (ap (found_or (k, d)) (sym (if_true _ _ e) ∙ h)) in
      (
        0,
        ap (λ x. x.0) same ∙ omega arith,
        ap some (ap (λ x. x.1) (sym same)),
        ap (λ x. x.1.id) same ∙ (==_iff d.id id).0 e,
      )
  | inr e ↦
      let (j, place, at, same) = find_control_lem id (suc k) cs i c (sym (if_false _ _ e) ∙ h) in
      (suc j, omega arith, at, same)
]

FirstHas-set_value :
    (value : ℤ) (c : Control) (cs : List Control) → FirstHas value (set_value 0 value (c ∷ cs))
unfolding set_value
FirstHas-set_value value c cs = (record c { value = value }, refl, refl)

-- A change at `i` alone, of a control with the id.
AreKept-set_value :
    (id i : ℕ) (value : ℤ) (c : Control) (cs : List Control)
    → get_elem? cs i ≡ some c
    → c.id ≡ id
    → AreKept id cs (set_value i value cs)
AreKept-set_value id i value c cs at same j d at' other = elim (ℕ_discrete (suc j) i) [
  | yes e ↦ absurd (
      other (
        ap (λ o. (found_or (0, d) (with_place o)).1.id) (sym at' ∙ ap (get_elem? cs) e ∙ at)
        ∙ same))
  | no n ↦ get_elem?-set_value i (suc j) value cs n ∙ at'
]
  where
    with_place : Option Control → Option (ℕ × Control)
    with_place none = none
    with_place (some x) = some (0, x)

-- What `v4l2SetControl` does: nothing, or it changes a control with the id.
data IsChange (id : ℕ) (cs : List Control) : List Control × Bool → Type 0 where
  refused : IsChange id cs (cs, false)
  accepted :
      {cs' : List Control} (d : Control) (ds : List Control)
      → cs' ≡ d ∷ ds
      → AreKept id cs cs'
      → IsChange id cs (cs', true)

module _ (calls : Calls) (id : ℕ) (value : ℤ) where
  some_control :
      (i : ℕ) (c : Control) (cs : List Control)
      → get_elem? cs i ≡ some c
      → (d : Control) × (ds : List Control) × (cs ≡ d ∷ ds)
  some_control i c [] at = absurd cc
  some_control i c (d ∷ ds) at = (d, ds, refl)

  some_control-set_value :
      (i : ℕ) (c : Control) (cs : List Control)
      → get_elem? cs i ≡ some c
      → (d : Control) × (ds : List Control) × (set_value i value cs ≡ d ∷ ds)
  unfolding set_value
  some_control-set_value i c [] at = absurd cc
  some_control-set_value zero c (d ∷ ds) at = (_, _, refl)
  some_control-set_value (suc i) c (d ∷ ds) at = (_, _, refl)

  set_found-IsChange :
      (cs : List Control) (o : Option (ℕ × Control))
      → ((i : ℕ) (c : Control) → o ≡ some (i, c) → (get_elem? cs i ≡ some c) × (c.id ≡ id))
      → IsChange id cs (set_found calls value cs o)
  unfolding set_found
  set_found-IsChange cs none at = refused
  set_found-IsChange cs (some (i, c)) at =
      if_cases (IsChange id cs) c.is_user _ _
        (if_cases (IsChange id cs) (is_in_range c value) _ _
          (if_cases (IsChange id cs) calls.sets _ _ changed refused) (kept true))
        (kept calls.sets_extended)
    where
      here : (get_elem? cs i ≡ some c) × (c.id ≡ id)
      here = at i c refl

      kept : (ok : Bool) → IsChange id cs (cs, ok)
      kept false = refused
      kept true = let (d, ds, e) = some_control i c cs here.0 in accepted d ds e (λ j x h n. h)

      changed : IsChange id cs (set_value i value cs, true)
      changed =
          let (d, ds, e) = some_control-set_value i c cs here.0 in
          accepted d ds e (AreKept-set_value id i value c cs here.0 here.1)

  -- The controls behind a command, and whether it returns 0.
  abbrev HasOutcome : List Control → List Control × Bool → Type 0
  HasOutcome cs (cs', ok) =
      ((ok ≡ false) × (cs' ≡ cs)) ⊎ ((ok ≡ true) × FirstHas value cs' × AreKept id cs cs')

  stored_first-HasOutcome :
      (cs : List Control) (o : List Control × Bool)
      → IsChange id cs o
      → HasOutcome cs (stored_first value o)
  stored_first-HasOutcome cs o refused = inl (refl, refl)
  stored_first-HasOutcome cs o (accepted {cs'} d ds e kept) = inr (
    refl,
    subst (λ x. FirstHas value (set_value 0 value x)) (sym e) (FirstHas-set_value value d ds),
    λ j c at n. get_elem?-set_value 0 (suc j) value cs' (λ q. cc) ∙ kept j c at n,
  )

-- Whatever the calls report: a command of the V4L2 group either returns -1 and leaves the controls as
-- they are, or it returns 0, and the first control of the list has the value, whichever control the
-- command names; those behind it with another id are as they were.
pub input_cmd-HasOutcome :
    (calls : Calls) (id : ℕ) (value : ℤ) (d : Device)
    → (((input_cmd calls id v4l2 value d).1 ≡ false)
        × ((input_cmd calls id v4l2 value d).0.controls ≡ d.controls))
      ⊎ (((input_cmd calls id v4l2 value d).1 ≡ true)
          × FirstHas value (input_cmd calls id v4l2 value d).0.controls
          × AreKept id d.controls (input_cmd calls id v4l2 value d).0.controls)
unfolding input_cmd v4l2_set_control
input_cmd-HasOutcome calls id value d =
    stored_first-HasOutcome calls id value d.controls _
      (set_found-IsChange calls id value d.controls (find_control id 0 d.controls) at_place)
  where
    at_place :
        (i : ℕ) (c : Control)
        → find_control id 0 d.controls ≡ some (i, c)
        → (get_elem? d.controls i ≡ some c) × (c.id ≡ id)
    at_place i c h =
        let (j, place, at, same) = find_control_lem id 0 d.controls i c h in
        (ap (get_elem? d.controls) (place ∙ omega arith) ∙ at, same)
