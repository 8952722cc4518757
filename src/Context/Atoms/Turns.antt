-- ===== src/Context/Atoms/Turns.antt =====
-- `_turns`, `_flatten` and `_protected_prefix_length` of src/sasori_context/budget.py: what they
-- divide is all there again when it is put together.
use sasori.Base.{
  ℕ, ◌≡◌, refl, sym, ap, ◌∙◌, Bool, true, false, Bool-cases, inl, inr, any, all, List, [], ◌∷◌,
  ◌++◌, map, arith, take, drop, take-append-drop,
}
use mathlib.Core.List.{append_assoc}
use sasori.Base.Comp.{returned}
use sasori.Base.Try.{Outcome-cases, >>=-returned}
use sasori.Text.{codes}
use sasori.Context.Messages.{ContextMessage, Host}
use sasori.Context.Atoms.{
  Atom, messages_of, has_role, flatten, turns_from, turns_of_atoms, atoms_of, turns_of,
  split_protected, split_prefix, Split, with_first, is_protected, is_plain_protected, is_system,
}
use sasori.Context.Atoms.Shape.{flatten-atoms_of}

pub flatten-append :
    (xs ys : List (List ContextMessage)) → flatten (xs ++ ys) ≡ flatten xs ++ flatten ys
flatten-append [] ys = refl
flatten-append (x ∷ xs) ys =
    ap (λ l. x ++ l) (flatten-append xs ys) ∙ sym (append_assoc x (flatten xs) (flatten ys))

-- The turns before a point and those from it on make up the whole.
pub flatten-take-drop :
    (n : ℕ) (turns : List (List ContextMessage))
    → flatten (take n turns) ++ flatten (drop n turns) ≡ flatten turns
flatten-take-drop n turns =
    sym (flatten-append (take n turns) (drop n turns)) ∙ ap flatten (take-append-drop n turns)

flatten-turns_from :
    (current : List ContextMessage) (atoms : List Atom)
    → flatten (turns_from current atoms) ≡ current ++ flatten (map messages_of atoms)
unfolding turns_from
flatten-turns_from current [] = refl
flatten-turns_from current (a ∷ atoms) = elim (Bool-cases (has_role (codes "user") a.head)) [
  | inl p ↦ rw p (ap (λ l. current ++ l) (flatten-turns_from (messages_of a) atoms))
  | inr p ↦ rw p (
      flatten-turns_from (current ++ messages_of a) atoms
      ∙ append_assoc current (messages_of a) (flatten (map messages_of atoms)))
]

pub flatten-turns_of_atoms :
    (atoms : List Atom) → flatten (turns_of_atoms atoms) ≡ flatten (map messages_of atoms)
unfolding turns_of_atoms
flatten-turns_of_atoms [] = refl
flatten-turns_of_atoms (a ∷ atoms) = flatten-turns_from (messages_of a) atoms

-- The turns of a history, one after the other, are the history.
pub flatten-turns_of :
    (host : Host) (ms : List ContextMessage) (turns : List (List ContextMessage))
    → turns_of host ms ≡ returned turns
    → flatten turns ≡ ms
unfolding turns_of
flatten-turns_of host ms turns h =
    let (atoms, a, e) =
      >>=-returned (atoms_of host ms) (λ atoms. returned (turns_of_atoms atoms)) turns h in
    let same : turns_of_atoms atoms ≡ turns = ground arith in
    rw (sym same) (flatten-turns_of_atoms atoms ∙ flatten-atoms_of host ms atoms a)

-- Protected data at the front, and what follows it with no protected message left.
abbrev IsProtectedFront : List ContextMessage → Split → Type 0
IsProtectedFront ms split =
    (split.0 ++ split.1 ≡ ms)
    × (all is_plain_protected split.0 ≡ true)
    × (any is_protected split.1 ≡ false)

split_protected-IsProtectedFront :
    (ms : List ContextMessage) (split : Split)
    → split_protected ms ≡ returned split
    → IsProtectedFront ms split
unfolding split_protected
split_protected-IsProtectedFront [] split h =
    let e : ([], []) ≡ split = ground arith in
    let whole : IsProtectedFront [] ([], []) = (refl, refl, refl) in rw (sym e) whole
split_protected-IsProtectedFront (m ∷ ms) split h = elim (Bool-cases (is_protected m)) [
  | inl p ↦ elim (Outcome-cases (split_protected ms)) [
    | inl (a, q) ↦
        let (made, plain, none_left) = split_protected-IsProtectedFront ms a q in
        let e : with_first m a ≡ split = ground arith in
        let is_plain : is_plain_protected m ≡ true = ground arith in
        let whole : IsProtectedFront (m ∷ ms) (with_first m a) =
          (ap (λ l. m ∷ l) made, ground arith, none_left) in
        rw (sym e) whole
    | inr (x, q) ↦ ground arith
  ]
  | inr p ↦
      let e : ([], m ∷ ms) ≡ split = ground arith in
      let none_left : any is_protected (m ∷ ms) ≡ false = ground arith in
      let whole : IsProtectedFront (m ∷ ms) ([], m ∷ ms) = (refl, refl, none_left) in
      rw (sym e) whole
]

abbrev pub begins_with_system : List ContextMessage → Bool
begins_with_system [] = false
begins_with_system (m ∷ ms) = is_system m

-- The front of a history is all the system messages that it begins with, then protected data of the
-- assistant; the front and the rest make up the history, and the rest has no protected message.
pub record IsFront (history : List ContextMessage) (split : Split) : Type 0 where
  pub systems : List ContextMessage
  pub protected_ones : List ContextMessage
  pub front : split.0 ≡ systems ++ protected_ones
  pub are_systems : all is_system systems ≡ true
  pub are_protected : all is_plain_protected protected_ones ≡ true
  pub are_all_systems : begins_with_system (protected_ones ++ split.1) ≡ false
  pub whole : split.0 ++ split.1 ≡ history
  pub none_left : any is_protected split.1 ≡ false

with_first-IsFront :
    (m : ContextMessage) (ms : List ContextMessage) (split : Split)
    → is_system m ≡ true
    → IsFront ms split
    → IsFront (m ∷ ms) (with_first m split)
with_first-IsFront m ms split e h = record {
  systems = m ∷ h.systems;
  protected_ones = h.protected_ones;
  front = ap (λ l. m ∷ l) h.front;
  are_systems = ground (arith, h.are_systems);
  are_protected = h.are_protected;
  are_all_systems = h.are_all_systems;
  whole = ap (λ l. m ∷ l) h.whole;
  none_left = h.none_left;
}

pub split_prefix-IsFront :
    (ms : List ContextMessage) (split : Split) → split_prefix ms ≡ returned split → IsFront ms split
unfolding split_prefix
split_prefix-IsFront [] split h =
    let e : ([], []) ≡ split = ground arith in
    let whole : IsFront [] ([], []) = record {
      systems = [];
      protected_ones = [];
      front = refl;
      are_systems = refl;
      are_protected = refl;
      are_all_systems = refl;
      whole = refl;
      none_left = refl;
    } in
    rw (sym e) whole
split_prefix-IsFront (m ∷ ms) split h = elim (Bool-cases (is_system m)) [
  | inl p ↦ elim (Outcome-cases (split_prefix ms)) [
    | inl (a, q) ↦
        let e : with_first m a ≡ split = ground arith in
        rw (sym e) (with_first-IsFront m ms a p (split_prefix-IsFront ms a q))
    | inr (x, q) ↦ ground arith
  ]
  | inr p ↦
      let (made, plain, none_left) =
        split_protected-IsProtectedFront (m ∷ ms) split (ground arith) in
      record {
        systems = [];
        protected_ones = split.0;
        front = refl;
        are_systems = refl;
        are_protected = plain;
        are_all_systems = ap begins_with_system made ∙ p;
        whole = made;
        none_left = none_left;
      }
]
