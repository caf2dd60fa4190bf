-- ===== src/Groups/Kept.antt =====
-- Every member of a group is sent once (crates/core/src/group.rs), in whatever order signals are
-- added, timers run out and the client is flushed.
use ops_signal.Prelude.{
  ℕ, suc, ◌+◌, ◌≤◌, ◌<◌, String, Bool, Option, none, some, List, [], ◌∷◌, ◌++◌, ◌≡◌, length, ltb,
  eqb, ltb→lt, All, Bool-cases, Option-cases, inl, inr, arith, length-append, All-append,
}
use ops_signal.Routing.{Route}
use ops_signal.Groups.{
  max_group_size, Values, Member, Closed, Open, Added, joined, opens, full, Groups, entry, join,
  open_group, add_at, take_group, take_all, add, group_key,
}
use ops_signal.Groups.Fields.{Json, group_values}
use ops_signal.Groups.Entries.{
  tally, tally_open, tally_closed, IsSized, IsWell, tally-append, tally-without, tally-push_member,
  tally_open-append_one, tally_closed-map, IsKeyed-without, IsKeyed-push_member, IsKeyed-append_one,
  has_entry-entry, All-without, All-entry, All-push_member, All-mono, length-close, bounded-All,
}

-- What was closed by `add` and by `take`.
abbrev pub filled : {M : Type 0} → Added M → List (Closed M)
filled joined = []
filled (opens key seq wait) = []
filled (full c) = c ∷ []

abbrev pub taken : {M : Type 0} → Option (Closed M) → List (Closed M)
taken none = []
taken (some c) = c ∷ []

module _ {M : Type 0} where
  -- What each operation makes of the groups: it keeps them well formed, closes `cs`, each with
  -- members and no more than the greatest size, and neither loses nor doubles a member but for the
  -- `ms` that it adds.
  pub record Keeps (gs gs' : Groups M) (ms : List (Member M)) (cs : List (Closed M)) : Type 0 where
    pub well : IsWell gs'
    pub bounded : All (λ c. (0 < length c.members) × (length c.members ≤ max_group_size)) cs
    pub tallied :
        (p : Member M → Bool)
        → tally_open p gs'.entries + tally_closed p cs ≡ tally_open p gs.entries + tally p ms
    pub guarded : gs'.in_flight ≡ gs.in_flight + length cs

  Keeps-join :
      (key : String) (m : Member M) (g : Open M) (gs : Groups M)
      → entry key gs.entries ≡ some g
      → IsWell gs
      → Keeps gs (join key m g gs).0 (m ∷ []) (filled (join key m g gs).1)
  unfolding join
  Keeps-join key m g gs e w =
      elim (Bool-cases (ltb (length (g.members ++ m ∷ [])) max_group_size)) [
        | inl s ↦ rw s (record {
          well = record {
            keyed = IsKeyed-push_member key m gs.entries w.keyed;
            sized =
                All-push_member IsSized key m g gs.entries e
                  (omega (arith, length-append g.members (m ∷ [])), ltb→lt _ _ s) w.sized;
            numbered =
                All-push_member (λ x. x.seq ≤ gs.next_seq) key m g gs.entries e
                  (All-entry (λ x. x.seq ≤ gs.next_seq) key g gs.entries e w.numbered) w.numbered;
          };
          bounded = tt;
          tallied = λ p. omega (arith, tally-push_member p key m g gs.entries e);
          guarded = omega arith;
        })
        | inr s ↦ rw s (record {
          well = record {
            keyed = IsKeyed-without key gs.entries w.keyed;
            sized = All-without IsSized key gs.entries w.sized;
            numbered = All-without (λ x. x.seq ≤ gs.next_seq) key gs.entries w.numbered;
          };
          bounded = (
            (
              omega (arith, length-append g.members (m ∷ [])),
              omega (
                arith,
                length-append g.members (m ∷ []),
                (All-entry IsSized key g gs.entries e w.sized).1,
              ),
            ),
            tt,
          );
          tallied = λ p. omega (
            arith,
            tally-append p g.members (m ∷ []),
            tally-without p key g gs.entries w.keyed e,
          );
          guarded = omega arith;
        })
      ]

  Keeps-open_group :
      (key : String) (by : Values) (route : Route) (m : Member M) (gs : Groups M)
      → entry key gs.entries ≡ none
      → IsWell gs
      → Keeps gs (open_group key by route m gs).0 (m ∷ []) (filled (open_group key by route m gs).1)
  unfolding open_group
  Keeps-open_group key by route m gs e w = record {
    well = record {
      keyed = IsKeyed-append_one gs.entries _ (has_entry-entry key gs.entries e) w.keyed;
      sized = All-append IsSized gs.entries _ w.sized ((omega arith, omega arith), tt);
      numbered =
          All-append (λ g. g.seq ≤ suc gs.next_seq) gs.entries _
            (All-mono (λ g. g.seq ≤ gs.next_seq) (λ g. g.seq ≤ suc gs.next_seq) (λ g h. omega arith)
              gs.entries w.numbered)
            (omega arith, tt);
    };
    bounded = tt;
    tallied = λ p. omega (arith, tally_open-append_one p gs.entries _);
    guarded = omega arith;
  }

  pub Keeps-take_group :
      (key : String) (seq : ℕ) (gs : Groups M)
      → IsWell gs
      → Keeps gs (take_group key seq gs).0 [] (taken (take_group key seq gs).1)
  unfolding take_group
  Keeps-take_group key seq gs w = elim (Option-cases (entry key gs.entries)) [
    | inl e ↦
        rw (e, take_group, taken)
          (record { well = w; bounded = tt; tallied = λ p. omega arith; guarded = omega arith })
    | inr (g, e) ↦
        rw (e, take_group)
          (elim (Bool-cases (eqb g.seq seq)) [
            | inr s ↦
                rw (s, take_group, taken)
                  (record {
                    well = w;
                    bounded = tt;
                    tallied = λ p. omega arith;
                    guarded = omega arith;
                  })
            | inl s ↦
                rw (s, take_group, taken)
                  (record {
                    well = record {
                      keyed = IsKeyed-without key gs.entries w.keyed;
                      sized = All-without IsSized key gs.entries w.sized;
                      numbered = All-without (λ x. x.seq ≤ gs.next_seq) key gs.entries w.numbered;
                    };
                    bounded =
                        (let h = All-entry IsSized key g gs.entries e w.sized in
                          ((h.0, omega (arith, h.1)), tt));
                    tallied = λ p. omega (arith, tally-without p key g gs.entries w.keyed e);
                    guarded = omega arith;
                  })
          ])
  ]

  pub Keeps-take_all : (gs : Groups M) → IsWell gs → Keeps gs (take_all gs).0 [] (take_all gs).1
  unfolding take_all
  Keeps-take_all gs w = record {
    well = record { keyed = tt; sized = tt; numbered = tt };
    bounded = bounded-All gs.entries w.sized;
    tallied = λ p. omega (arith, tally_closed-map p gs.entries);
    guarded = omega (arith, length-close gs.entries);
  }

module _ {M : Type 0} where
  tally_closed-append :
      (p : Member M → Bool) (xs ys : List (Closed M))
      → tally_closed p (xs ++ ys) ≡ tally_closed p xs + tally_closed p ys
  tally_closed-append p [] ys = omega arith
  tally_closed-append p (c ∷ cs) ys = omega (arith, tally_closed-append p cs ys)

  Keeps-then :
      (gs gs' gs'' : Groups M) (ms ms' : List (Member M)) (cs cs' : List (Closed M))
      → Keeps gs gs' ms cs
      → Keeps gs' gs'' ms' cs'
      → Keeps gs gs'' (ms ++ ms') (cs ++ cs')
  Keeps-then gs gs' gs'' ms ms' cs cs' h k = record {
    well = k.well;
    bounded = All-append _ cs cs' h.bounded k.bounded;
    tallied = λ p.
        omega
          (arith, h.tallied p, k.tallied p, tally-append p ms ms', tally_closed-append p cs cs');
    guarded = omega (arith, h.guarded, k.guarded, length-append cs cs');
  }

-- What happens to the groups: a signal is added on a route, the timer of a group runs out, or
-- every group is sent.
pub data Event (M : Type 0) : Type 0 where
  adds : Route → Member M → Event M
  expires : String → ℕ → Event M
  flushes : Event M

abbrev pub added_by : {M : Type 0} → Event M → List (Member M)
added_by (adds route m) = m ∷ []
added_by (expires key seq) = []
added_by flushes = []

abbrev pub added : {M : Type 0} → List (Event M) → List (Member M)
added [] = []
added (e ∷ es) = added_by e ++ added es

module _ (key_of : Route → String) (json_text : Values → String) {M : Type 0} (json : Json M) where
  abbrev pub happen : Event M → Groups M → Groups M × List (Closed M)
  happen (adds route m) gs = let (gs', a) = add key_of json_text json route m gs in (gs', filled a)
  happen (expires key seq) gs = let (gs', c) = take_group key seq gs in (gs', taken c)
  happen flushes gs = take_all gs

  -- The groups after all events, and what was closed, in order.
  abbrev pub run : List (Event M) → Groups M → Groups M × List (Closed M)
  run [] gs = (gs, [])
  run (e ∷ es) gs = let (gs', cs) = happen e gs in let (gs'', cs') = run es gs' in (gs'', cs ++ cs')

  Keeps-add :
      (route : Route) (m : Member M) (gs : Groups M)
      → IsWell gs
      → Keeps gs
          (add key_of json_text json route m gs).0
          (m ∷ [])
          (filled (add key_of json_text json route m gs).1)
  unfolding add add_at
  Keeps-add route m gs w =
      (let by = group_values json route m.signal in
        let key = group_key key_of json_text route by in
        elim (Option-cases (entry key gs.entries)) [
          | inr (g, e) ↦ rw (e, add, add_at, filled) (Keeps-join key m g gs e w)
          | inl e ↦ rw (e, add, add_at, filled) (Keeps-open_group key by route m gs e w)
        ])

  Keeps-happen :
      (e : Event M) (gs : Groups M)
      → IsWell gs
      → Keeps gs (happen e gs).0 (added_by e) (happen e gs).1
  Keeps-happen (adds route m) gs w = Keeps-add route m gs w
  Keeps-happen (expires key seq) gs w = Keeps-take_group key seq gs w
  Keeps-happen flushes gs w = Keeps-take_all gs w

  -- From well-formed groups (one to a key, each with members and fewer than 500, none with a number
  -- that is not yet given), whatever signals are added, timers run out and flushes come, in any
  -- order: the groups stay well formed; every group that is closed has from 1 to 500 members; of
  -- the members that meet any test, as many are open or closed in the end as were open before or
  -- were added; and each closed group counts as one send in flight.
  pub Keeps-run :
      (es : List (Event M)) (gs : Groups M)
      → IsWell gs
      → Keeps gs (run es gs).0 (added es) (run es gs).1
  Keeps-run [] gs w = record {
    well = w;
    bounded = tt;
    tallied = λ p. omega arith;
    guarded = omega arith;
  }
  Keeps-run (e ∷ es) gs w =
      (let h = Keeps-happen e gs w in
        Keeps-then gs (happen e gs).0 _ (added_by e) (added es) (happen e gs).1 _ h
          (Keeps-run es (happen e gs).0 h.well))
