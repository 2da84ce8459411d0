-- ===== src/Retention/Parents/Closure.antt =====
-- The walk reaches the parent of each kept snapshot (`protect_retained_parents` of
-- crates/devrelay-core/src/retention.rs).
use mathlib.Core.Path.{subst}
use devrelay.Prelude.{
  ℕ, zero, suc, ◌≡◌, ◌⊎◌, sym, inl, inr, String, true, none, some, List, [], ◌∷◌, if◌then◌else◌,
  arith, eq_iff, Bool-cases, Option-cases, ◌is◌, is→≡,
}
use devrelay.Map.{get, contains}
use devrelay.Map.Laws.{Has}
use devrelay.Retention.{RetentionKeepReason, SnapshotRetentionEntry, retained_parent}
use devrelay.Retention.Reasons.{ReasonMap, add_reason, reasons_of}
use devrelay.Retention.Parents.{
  ParentMap, Walk, next, run, start, rounds, active, reverse_onto, protect_retained_parents,
  collect_parents,
}
use devrelay.Retention.Reasons.Laws.{HasReason, add_reason-has, add_reason-keeps, add_reason-only}
use devrelay.Retention.Parents.Rounds.{Round, next-Round, run-ends, List-cases, work, unvisited-nil}

-- Every id with a reason is visited or to be visited, and the parents of the visited ones are kept.
record Sound (parents : ParentMap) (w : Walk) : Type 0 where
  reached :
      (r : RetentionKeepReason) (j : String)
      → HasReason r j w.reasons
      → (contains w.visited j ≡ true) ⊎ Has j w.frontier
  closed :
      (j parent : String)
      → contains w.visited j ≡ true
      → get j parents ≡ some (some parent)
      → HasReason retained_parent parent w.reasons

-- An id with a reason before the round is visited after it or in what is left of the frontier.
visit :
    (parents : ParentMap) (w : Walk) {w' : Walk} (r : Round parents w w')
    → Sound parents w
    → (q : RetentionKeepReason) (j : String) → HasReason q j w.reasons
    → (contains (r.top ∷ w.visited) j ≡ true) ⊎ Has j r.rest
unfolding contains
visit parents w r s q j h = elim (s.reached q j h) [
  | inl old ↦ inl (ground (arith, old))
  | inr later ↦ elim (rw (r.popped, Has) at later) [
    | inl same ↦ inl (ground (arith, same, eq_iff r.top j))
    | inr rest ↦ inr rest
  ]
]

ended : (parents : ParentMap) (w : Walk) → next parents w ≡ none → w.frontier ≡ []
unfolding next
ended parents w h = elim (List-cases w.frontier) [
  | inl e ↦ e
  | inr (top, rest, popped) ↦ elim (Option-cases (get top parents)) [
    | inl gone ↦ ground (arith, h, popped, gone)
    | inr (o, at) ↦ ground (arith, h, popped, at)
  ]
]

Round-Sound :
    (parents : ParentMap) (w w' : Walk) → Round parents w w' → Sound parents w → Sound parents w'
unfolding contains
Round-Sound parents w w' r s = elim r.does [
  | inl (seen, e) ↦ record {
    reached = λ q j h. elim (s.reached q j (rw (e, HasReason) at h)) [
      | inl old ↦ inl (ground (arith, e, old))
      | inr later ↦ elim (rw (r.popped, Has) at later) [
        | inl same ↦ inl (ground (arith, e, same, seen))
        | inr rest ↦ inr (rw (e, Has) rest)
      ]
    ];
    closed = λ j parent h at. rw (e, HasReason) (s.closed j parent (ground (arith, e, h)) at);
  }
  | inr (new, inl (parent, at, e)) ↦ subst (Sound parents) (sym e) (record {
    reached = λ q j h. elim (add_reason-only parent j retained_parent q w.reasons h) [
      | inl old ↦ elim (visit parents w r s q j old) [
        | inl seen ↦ inl seen
        | inr later ↦ inr (inr later)
      ]
      | inr same ↦ inr (inl (sym same))
    ];
    closed = λ j p h known. elim (Bool-cases (r.top is j)) [
      | inl same ↦
          subst (λ x. HasReason retained_parent x (add_reason parent retained_parent w.reasons))
            (ground (arith, at, known, is→≡ same)) (add_reason-has parent retained_parent w.reasons)
      | inr other ↦
          add_reason-keeps parent p retained_parent retained_parent w.reasons
            (s.closed j p (ground (arith, h, other)) known)
    ];
  })
  | inr (new, inr (root, e)) ↦ subst (Sound parents) (sym e) (record {
    reached = λ q j h. visit parents w r s q j h;
    closed = λ j p h known. elim (Bool-cases (r.top is j)) [
      | inl same ↦ absurd (root p (rw (is→≡ same) known))
      | inr other ↦ s.closed j p (ground (arith, h, other)) known
    ];
  })
]

run-Sound :
    (n : ℕ) (parents : ParentMap) (w : Walk) → Sound parents w → Sound parents (run n parents w)
unfolding run
run-Sound zero parents w s = s
run-Sound (suc n) parents w s = elim (Option-cases (next parents w)) [
  | inl e ↦ rw (e, run) s
  | inr (w', e) ↦
      rw (e, run) (run-Sound n parents w' (Round-Sound parents w w' (next-Round parents w w' e) s))
]

reasons_of-cons :
    (j k : String) (l : List RetentionKeepReason) (m : ReasonMap)
    → reasons_of j ((k, l) ∷ m) ≡ (if k is j then l else reasons_of j m)
unfolding get
reasons_of-cons j k l m = ground arith

active-Has :
    (r : RetentionKeepReason) (j : String) (m : ReasonMap) → HasReason r j m → Has j (active m)
unfolding active get
active-Has r j [] h = absurd h
active-Has r j ((k, []) ∷ m) h = elim (Bool-cases (k is j)) [
  | inl e ↦ absurd (rw (reasons_of-cons j k [] m, e) at h)
  | inr e ↦ active-Has r j m (rw (reasons_of-cons j k [] m, e) at h)
]
active-Has r j ((k, q ∷ qs) ∷ m) h = elim (Bool-cases (k is j)) [
  | inl e ↦ inl (sym (is→≡ e))
  | inr e ↦ inr (active-Has r j m (rw (reasons_of-cons j k (q ∷ qs) m, e) at h))
]

reverse_onto-Has :
    (j : String) (xs acc : List String) → Has j xs ⊎ Has j acc → Has j (reverse_onto xs acc)
reverse_onto-Has j [] acc h = elim h [ inl nothing ↦ absurd nothing | inr old ↦ old ]
reverse_onto-Has j (x ∷ xs) acc h = reverse_onto-Has j xs (x ∷ acc) (elim h [
  | inl (inl same) ↦ inr (inl same)
  | inl (inr later) ↦ inl later
  | inr old ↦ inr (inr old)
])

start-Sound : (parents : ParentMap) (m : ReasonMap) → Sound parents (start m)
unfolding contains
start-Sound parents m = record {
  reached = λ r j h. inr (reverse_onto-Has j (active m) [] (inl (active-Has r j m h)));
  closed = λ j parent h at. ground (arith, h);
}

-- What the walk leaves: the parent of each snapshot with a reason has one, and nothing is forgotten.
pub protect_retained_parents-closed :
    (snapshots : List SnapshotRetentionEntry) (m : ReasonMap) (r : RetentionKeepReason)
    (j parent : String)
    → HasReason r j (protect_retained_parents snapshots m)
    → get j (collect_parents snapshots []) ≡ some (some parent)
    → HasReason retained_parent parent (protect_retained_parents snapshots m)
unfolding protect_retained_parents work
protect_retained_parents-closed snapshots m r j parent h at =
    let parents = collect_parents snapshots [] in
    let w = run (rounds parents m) parents (start m) in
    let s = run-Sound (rounds parents m) parents (start m) (start-Sound parents m) in
    let ends =
      run-ends (rounds parents m) parents (start m) (omega (arith, unvisited-nil parents)) in
    elim (s.reached r j h) [
      | inl seen ↦ s.closed j parent seen at
      | inr waiting ↦ absurd (rw (ended parents w ends, Has) at waiting)
    ]

run-keeps :
    (n : ℕ) (parents : ParentMap) (w : Walk) (r : RetentionKeepReason) (j : String)
    → HasReason r j w.reasons
    → HasReason r j (run n parents w).reasons
unfolding run
run-keeps zero parents w r j h = h
run-keeps (suc n) parents w r j h = elim (Option-cases (next parents w)) [
  | inl e ↦ rw (e, run) h
  | inr (w', e) ↦ rw (e, run) (run-keeps n parents w' r j (Round-keeps (next-Round parents w w' e)))
]
  where
    Round-keeps : {w' : Walk} → Round parents w w' → HasReason r j w'.reasons
    Round-keeps t = elim t.does [
      | inl (seen, e) ↦ rw (e) h
      | inr (new, inl (parent, at, e)) ↦
          rw (e) (add_reason-keeps parent j retained_parent r w.reasons h)
      | inr (new, inr (root, e)) ↦ rw (e) h
    ]

pub protect_retained_parents-keeps :
    (snapshots : List SnapshotRetentionEntry) (m : ReasonMap) (r : RetentionKeepReason) (j : String)
    → HasReason r j m
    → HasReason r j (protect_retained_parents snapshots m)
unfolding protect_retained_parents
protect_retained_parents-keeps snapshots m r j h =
    run-keeps (rounds (collect_parents snapshots []) m) (collect_parents snapshots []) (start m) r j
      h

-- The walk to the parents ends for any snapshots and reasons, also where the parents form a cycle: after
-- as many rounds as there are ids with a reason and snapshots, no id is left to look at.
pub protect_retained_parents-ends :
    (snapshots : List SnapshotRetentionEntry) (m : ReasonMap)
    → let parents = collect_parents snapshots [] in
      (next parents (run (rounds parents m) parents (start m)) ≡ none)
      × ((run (rounds parents m) parents (start m)).frontier ≡ [])
unfolding work
protect_retained_parents-ends snapshots m =
    let parents = collect_parents snapshots [] in
    let done =
      run-ends (rounds parents m) parents (start m) (omega (arith, unvisited-nil parents)) in
    (done, ended parents (run (rounds parents m) parents (start m)) done)
