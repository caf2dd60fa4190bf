-- ===== src/Sources/Paths.antt =====
-- The paths that `normalize` of crates/core/src/source.rs gives.
use mathlib.Core.List.{reverse, reverse-cons, reverse-reverse}
use ops_signal.Prelude.{
  String, ◌||◌, Option, none, some, append_assoc, append-nil, List, [], ◌∷◌, ◌++◌, ◌==◌, ◌≡◌, ◌≢◌,
  refl, sym, ap, ◌∙◌, subst, arith, is_empty, split_on, if◌then◌else◌, Bool-cases, inl, inr, All,
}
use ops_signal.Sources.Join.{
  Component, root_dir, cur_dir, parent_dir, normal, component, later_components, first_components,
  is_absolute, components, push_normal, push_all, normalize,
}

push_all-append :
    (out xs ys : List Component) → push_all out (xs ++ ys) ≡ push_all (push_all out xs) ys
push_all-append out [] ys = refl
push_all-append out (x ∷ xs) ys = push_all-append (push_normal out x) xs ys

-- What is left of a path, the last component first: names, and before them steps up.
pub data Climbs : List Component → Type 0 where
  here : Climbs []
  top : Climbs (root_dir ∷ [])
  up : {out : List Component} → Climbs out → Climbs (parent_dir ∷ out)

pub data IsTidy : List Component → Type 0 where
  climbing : {out : List Component} → Climbs out → IsTidy out
  named : {out : List Component} {name : String} → IsTidy out → IsTidy (normal name ∷ out)

abbrev IsBelow : Component → Type 0
IsBelow part = part ≢ root_dir

push_climb : (out : List Component) → Climbs out → push_normal out parent_dir ≡ parent_dir ∷ out
unfolding push_normal
push_climb out here = refl
push_climb out top = refl
push_climb out (up c) = refl

push_normal-IsTidy :
    (out : List Component) (part : Component)
    → IsBelow part
    → IsTidy out
    → IsTidy (push_normal out part)
unfolding push_normal
push_normal-IsTidy out root_dir h t = absurd (h refl)
push_normal-IsTidy out cur_dir h t = t
push_normal-IsTidy out (normal name) h t = named t
push_normal-IsTidy out parent_dir h (named t) = t
push_normal-IsTidy out parent_dir h (climbing c) =
    subst IsTidy (sym (push_climb out c)) (climbing (up c))

push_all-IsTidy :
    (out parts : List Component) → All IsBelow parts → IsTidy out → IsTidy (push_all out parts)
push_all-IsTidy out [] h t = t
push_all-IsTidy out (part ∷ parts) h t =
    push_all-IsTidy (push_normal out part) parts h.1 (push_normal-IsTidy out part h.0 t)

-- A tidy path is left as it is.
push_last :
    (out : List Component) (part : Component)
    → push_all [] (reverse (part ∷ out)) ≡ push_normal (push_all [] (reverse out)) part
push_last out part =
    ap (push_all []) (reverse-cons part out) ∙ push_all-append [] (reverse out) (part ∷ [])

push_all-Climbs : (out : List Component) → Climbs out → push_all [] (reverse out) ≡ out
unfolding push_normal
push_all-Climbs out here = refl
push_all-Climbs out top = refl
push_all-Climbs out (up {out = rest} c) =
    push_last rest parent_dir
    ∙ ap (λ t. push_normal t parent_dir) (push_all-Climbs rest c)
    ∙ push_climb rest c

push_all-reverse : (out : List Component) → IsTidy out → push_all [] (reverse out) ≡ out
unfolding push_normal
push_all-reverse out (named {out = rest} {name} t) =
    push_last rest (normal name) ∙ ap (λ t. push_normal t (normal name)) (push_all-reverse rest t)
push_all-reverse out (climbing c) = push_all-Climbs out c

-- Only the first component can be the root.
component-IsBelow :
    (name : String) (rest : List Component) → All IsBelow rest → All IsBelow (component name rest)
component-IsBelow name rest h = elim (Bool-cases (is_empty name || name == ".")) [
  | inl e ↦ rw e h
  | inr e ↦ elim (Bool-cases (name == "..")) [
    | inl k ↦ rw (e, k) (λ p. ground (arith, p), h)
    | inr k ↦ rw (e, k) (λ p. ground (arith, p), h)
  ]
]

later-IsBelow : (names : List String) → All IsBelow (later_components names)
later-IsBelow [] = tt
later-IsBelow (name ∷ names) = component-IsBelow name (later_components names) (later-IsBelow names)

first-IsBelow : (names : List String) → All IsBelow (first_components names)
first-IsBelow [] = tt
first-IsBelow (name ∷ names) = elim (Bool-cases (name == ".")) [
  | inl e ↦ rw e (λ p. ground (arith, p), later-IsBelow names)
  | inr e ↦
      subst
        (λ b.
          All IsBelow
            (if b then cur_dir ∷ later_components names else later_components (name ∷ names)))
        (sym e) (later-IsBelow (name ∷ names))
]

components-IsTidy : (path : String) → IsTidy (push_all [] (components path))
unfolding components push_normal
components-IsTidy path = elim (Bool-cases (is_absolute path)) [
  | inl e ↦
      rw (e, components)
        (push_all-IsTidy (root_dir ∷ []) _ (later-IsBelow (split_on 47 path)) (climbing top))
  | inr e ↦
      rw (e, components) (push_all-IsTidy [] _ (first-IsBelow (split_on 47 path)) (climbing here))
]

-- The folder that a path leads to from another, each by its names, the innermost first, in a tree
-- without links; `none` is above the top.
abbrev pub arrive : List Component → List String → Option (List String)
arrive [] place = some place
arrive (root_dir ∷ parts) place = arrive parts []
arrive (cur_dir ∷ parts) place = arrive parts place
arrive (normal name ∷ parts) place = arrive parts (name ∷ place)
arrive (parent_dir ∷ parts) [] = none
arrive (parent_dir ∷ parts) (_ ∷ place) = arrive parts place

abbrev then_arrive : Option (List String) → List Component → Option (List String)
then_arrive none parts = none
then_arrive (some place) parts = arrive parts place

arrive-append :
    (xs ys : List Component) (place : List String)
    → arrive (xs ++ ys) place ≡ then_arrive (arrive xs place) ys
arrive-append [] ys place = refl
arrive-append (root_dir ∷ xs) ys place = arrive-append xs ys []
arrive-append (cur_dir ∷ xs) ys place = arrive-append xs ys place
arrive-append (normal name ∷ xs) ys place = arrive-append xs ys (name ∷ place)
arrive-append (parent_dir ∷ xs) ys [] = refl
arrive-append (parent_dir ∷ xs) ys (_ ∷ place) = arrive-append xs ys place

arrive_last :
    (out : List Component) (part : Component) (parts : List Component) (place : List String)
    → arrive (reverse (part ∷ out) ++ parts) place ≡ arrive (reverse out ++ (part ∷ parts)) place
arrive_last out part parts place =
    ap (λ xs. arrive (xs ++ parts) place) (reverse-cons part out)
    ∙ ap (λ xs. arrive xs place) (append_assoc (reverse out) (part ∷ []) parts)

then_arrive_cur :
    (o : Option (List String)) (parts : List Component)
    → then_arrive o parts ≡ then_arrive o (cur_dir ∷ parts)
then_arrive_cur none parts = refl
then_arrive_cur (some place) parts = refl

then_arrive_back :
    (o : Option (List String)) (name : String) (parts : List Component)
    → then_arrive o parts ≡ then_arrive o (normal name ∷ parent_dir ∷ parts)
then_arrive_back none name parts = refl
then_arrive_back (some place) name parts = refl

arrive-push_normal :
    (out : List Component) (part : Component) (parts : List Component) (place : List String)
    → arrive (reverse (push_normal out part) ++ parts) place
      ≡ arrive (reverse out ++ (part ∷ parts)) place
unfolding push_normal
arrive-push_normal out cur_dir parts place =
    arrive-append (reverse out) parts place
    ∙ then_arrive_cur (arrive (reverse out) place) parts
    ∙ sym (arrive-append (reverse out) (cur_dir ∷ parts) place)
arrive-push_normal out root_dir parts place = arrive_last out root_dir parts place
arrive-push_normal out (normal name) parts place = arrive_last out (normal name) parts place
arrive-push_normal [] parent_dir parts place = arrive_last [] parent_dir parts place
arrive-push_normal (root_dir ∷ out) parent_dir parts place =
    arrive_last (root_dir ∷ out) parent_dir parts place
arrive-push_normal (cur_dir ∷ out) parent_dir parts place =
    arrive_last (cur_dir ∷ out) parent_dir parts place
arrive-push_normal (parent_dir ∷ out) parent_dir parts place =
    arrive_last (parent_dir ∷ out) parent_dir parts place
arrive-push_normal (normal name ∷ out) parent_dir parts place =
    arrive-append (reverse out) parts place
    ∙ then_arrive_back (arrive (reverse out) place) name parts
    ∙ sym (arrive-append (reverse out) (normal name ∷ parent_dir ∷ parts) place)
    ∙ sym (arrive_last out (normal name) (parent_dir ∷ parts) place)

arrive-push_all :
    (out parts : List Component) (place : List String)
    → arrive (reverse (push_all out parts)) place ≡ arrive (reverse out ++ parts) place
arrive-push_all out [] place = ap (λ xs. arrive xs place) (sym (append-nil (reverse out)))
arrive-push_all out (part ∷ parts) place =
    arrive-push_all (push_normal out part) parts place ∙ arrive-push_normal out part parts place

-- A path leads to the same place with and without its detours.
pub arrive-normalize :
    (parts : List Component) (place : List String)
    → arrive (normalize parts) place ≡ arrive parts place
unfolding normalize
arrive-normalize parts place = arrive-push_all [] parts place

-- `normalize` leads where the path does, from any folder, in a tree without links. It leaves no `.`
-- in a path, and a `..` only where nothing but the root or another `..` stands before it, and a
-- path that it gave, it leaves as it is.
pub normalize-IsTidy :
    (path : String)
    → ((place : List String)
        → arrive (normalize (components path)) place ≡ arrive (components path) place)
      × IsTidy (reverse (normalize (components path)))
      × (normalize (normalize (components path)) ≡ normalize (components path))
unfolding normalize
normalize-IsTidy path =
    let t = components-IsTidy path in
    (
      arrive-normalize (components path),
      subst IsTidy (sym (reverse-reverse (push_all [] (components path)))) t,
      ap reverse (push_all-reverse (push_all [] (components path)) t),
    )

-- Going into a folder and out again, or staying with a `.`, does not change what `normalize` gives,
-- wherever in the path it stands: two such ways to a file end at one path.
pub normalize_detour :
    (before after : List Component) (folder : String)
    → (normalize (before ++ (normal folder ∷ parent_dir ∷ after)) ≡ normalize (before ++ after))
      × (normalize (before ++ (cur_dir ∷ after)) ≡ normalize (before ++ after))
unfolding normalize push_normal
normalize_detour before after folder = (
  ap reverse (
      push_all-append [] before (normal folder ∷ parent_dir ∷ after)
      ∙ sym (push_all-append [] before after)),
  ap reverse (push_all-append [] before (cur_dir ∷ after) ∙ sym (push_all-append [] before after)),
)
