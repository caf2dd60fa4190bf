-- ===== src/Routing/Modes.antt =====
-- Where the providers of a plan stand, for configs of one delivery mode
-- (crates/core/src/routing.rs).
use ops_signal.Prelude.{
  ℕ, String, Bool, true, false, Option, none, some, List, [], ◌∷◌, ◌++◌, ◌≡◌, refl, contains,
  Result, ok, err, append-nil, Bool-cases, Option-cases, inl, inr, if◌then◌else◌, sym, ◌∙◌, subst,
  map, map-append, ap, arith,
}
use ops_signal.Routing.{Route, DeliveryMode, failover, fanout, push_new, group_window}
use ops_signal.Routing.Plan.{
  Planning, push_at, place, add_provider, add_providers, take_route, gated,
}
use ops_signal.Routing.Decisions.{Decision, no_match, turned_down, held, sent, pass, judge}

-- One ordered chain; none for no names.
abbrev pub chain_of : List String → List (List String)
chain_of [] = []
chain_of (n ∷ ns) = (n ∷ ns) ∷ []

abbrev pub chain_index : List String → Option ℕ
chain_index [] = none
chain_index (n ∷ ns) = some 0

-- One target for each name.
abbrev pub singles : List String → List (List String)
singles = map (λ n. n ∷ [])

-- Where the loop stands if every route so far had the mode.
abbrev pub Shaped : DeliveryMode → Planning → Type 0
Shaped failover p = (p.targets ≡ chain_of p.seen) × (p.shared ≡ chain_index p.seen)
Shaped fanout p = p.targets ≡ singles p.seen

chain_step :
    (name : String) (seen : List String) (p : Planning)
    → p.targets ≡ chain_of seen
    → p.seen ≡ seen ++ name ∷ []
    → p.shared ≡ chain_index seen
    → Shaped failover (place failover (chain_index seen) name p)
unfolding place push_at
chain_step name [] p t e s = ground arith
chain_step name (x ∷ seen) p t e s = ground arith

-- A name that is not placed yet.
place-Shaped :
    (mode : DeliveryMode) (name : String) (p : Planning)
    → Shaped mode p
    → Shaped mode (place mode p.shared name (record p { seen = p.seen ++ name ∷ [] }))
place-Shaped failover name p (t, s) =
    subst (λ sh. Shaped failover (place failover sh name (record p { seen = p.seen ++ name ∷ [] })))
      (sym s) (chain_step name p.seen (record p { seen = p.seen ++ name ∷ [] }) t refl s)
place-Shaped fanout name p t =
    unfold place in rw t (sym (map-append (λ n. n ∷ []) p.seen (name ∷ [])))

pub record Fills (mode : DeliveryMode) (names : List String) (p q : Planning) : Type 0 where
  pub shaped : Shaped mode q
  pub seen : q.seen ≡ push_new p.seen names

seen-place :
    (mode : DeliveryMode) (shared : Option ℕ) (name : String) (p : Planning)
    → (place mode shared name p).seen ≡ p.seen
unfolding place
seen-place fanout shared name p = refl
seen-place failover (some i) name p = refl
seen-place failover none name p = refl

add_providers-Fills :
    (mode : DeliveryMode) (names : List String) (p : Planning)
    → Shaped mode p
    → Fills mode names p (add_providers mode names p)
unfolding add_providers add_provider push_new
add_providers-Fills mode [] p h = record { shaped = h; seen = refl }
add_providers-Fills mode (name ∷ rest) p h = elim (Bool-cases (contains name p.seen)) [
  | inl old ↦
      let more = add_providers-Fills mode rest p h in
      record { shaped = rw old more.shaped; seen = simp old more.seen }
  | inr new ↦
      let q = place mode p.shared name (record p { seen = p.seen ++ name ∷ [] }) in
      let more = add_providers-Fills mode rest q (place-Shaped mode name p h) in
      record {
        shaped = rw new more.shaped;
        seen = simp new (more.seen ∙ ap (λ s. push_new s rest) (seen-place mode p.shared name _));
      }
]

-- The names that the routes which send now list, in route order.
unfoldable pub sent_names : List Decision → List String
sent_names [] = []
sent_names (sent route ∷ ds) = route.providers ++ sent_names ds
sent_names (no_match ∷ ds) = sent_names ds
sent_names (turned_down _ _ ∷ ds) = sent_names ds
sent_names (held _ _ ∷ ds) = sent_names ds

pub push_new-append :
    (xs ys names : List String) → push_new names (xs ++ ys) ≡ push_new (push_new names xs) ys
unfolding push_new
push_new-append [] ys names = refl
push_new-append (x ∷ xs) ys names =
    push_new-append xs ys (if contains x names then names else names ++ x ∷ [])

pub sent_names-cons :
    (d : Decision) (ds : List Decision) → sent_names (d ∷ ds) ≡ sent_names (d ∷ []) ++ sent_names ds
unfolding sent_names
sent_names-cons no_match ds = refl
sent_names-cons (turned_down _ _) ds = refl
sent_names-cons (held _ _) ds = refl
sent_names-cons (sent route) ds = ap (λ ns. ns ++ sent_names ds) (sym (append-nil route.providers))

-- The lines of a plan have no part in its shape.
pub Fills-lines :
    (mode : DeliveryMode) (p : Planning) (suppressed : List String) (grouped : List (ℕ × String))
    → Shaped mode p
    → Fills mode [] p (record p { suppressed = suppressed; grouped = grouped })
unfolding push_new
Fills-lines failover p _ _ h = record { shaped = h; seen = refl }
Fills-lines fanout p _ _ h = record { shaped = h; seen = refl }

module _ (mode : DeliveryMode) where
  pub take_route-Fills :
      (i : ℕ) (route : Route) (p : Planning)
      → route.mode ≡ mode
      → Shaped mode p
      → Fills mode (sent_names (pass route ∷ [])) p (take_route i route p)
  unfolding sent_names take_route pass
  take_route-Fills i route p m h = elim (Option-cases (group_window route)) [
    | inl now ↦
        rw (now, take_route, pass, append-nil, m) (add_providers-Fills mode route.providers p h)
    | inr (wait, hold) ↦ rw (hold, take_route, pass) (Fills-lines mode p p.suppressed _ h)
  ]

  pub gated-Fills :
      (i : ℕ) (route : Route) (verdict : Result String (Unit {0})) (p : Planning)
      → route.mode ≡ mode
      → Shaped mode p
      → Fills mode (sent_names (judge route verdict ∷ [])) p (gated i route verdict p)
  unfolding gated judge sent_names
  gated-Fills i route (ok _) p m h = take_route-Fills i route p m h
  gated-Fills i route (err reason) p m h = Fills-lines mode p _ p.grouped h

abbrev pub same_mode : DeliveryMode → DeliveryMode → Bool
same_mode failover failover = true
same_mode fanout fanout = true
same_mode _ _ = false

pub same_mode-eq : (a b : DeliveryMode) → same_mode a b ≡ true → a ≡ b
same_mode-eq failover failover h = refl
same_mode-eq failover fanout h = cc
same_mode-eq fanout failover h = cc
same_mode-eq fanout fanout h = refl
