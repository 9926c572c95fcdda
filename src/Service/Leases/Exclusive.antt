-- ===== src/Service/Leases/Exclusive.antt =====
-- Who holds a lease of service/coordination.py.
use looptimum.Prelude.{
  ℕ, Bool, true, false, not, ◌&&◌, some, String, str_eq, [], ◌∷◌, ◌≡◌, ◌≢◌, refl, sym, ap, ◌∙◌,
  subst, inl, inr, lookup, insert, keep, lookup-insert, text_eq_refl, eq_iff, Bool-cases, ◌==◌,
  arith,
}
use looptimum.Float.{Float, IsOrdered}
use looptimum.Values.{Dict}
use looptimum.Service.Leases.{
  Lease, LeaseRequest, Phase, inside, new_lease, try_acquire, release, Coordination, update, Move,
  trying, read_time, stop, ask, grant, retry, give_up, leave, acquire_fault, release_fault, Step,
  pick, Reach, start, later,
}

lookup-keep :
    {V : Type 0} (p : String × V → Bool) (k : String) {v : V}
    → ((j : String) → p (j, v) ≡ true)
    → (d : Dict V) → lookup k d ≡ some v
    → lookup k (keep p d) ≡ some v
unfolding lookup
lookup-keep p k kept [] h = h
lookup-keep p k kept (row ∷ rest) h = elim (Bool-cases (str_eq row.0 k)) [
  | inl here ↦ ground (arith, kept row.0)
  | inr there ↦ ground (arith, lookup-keep p k kept rest)
]

module _ (fl : Float) where
  -- The campaign's row is that of the token, with this expiry.
  pub record Holds (table : Dict (Lease fl.F)) (campaign_id owner_token : String)
      (expires_at : fl.F) : Type 0 where
    pub acquired_at : fl.F
    pub row :
        lookup campaign_id table
        ≡ some (record {
          owner_token = owner_token;
          acquired_at = acquired_at;
          expires_at = expires_at;
        })

  pub release-Holds :
      (table : Dict (Lease fl.F)) (c t k u : String) (e : fl.F)
      → str_eq u t ≡ false
      → Holds table k u e
      → Holds (release fl table c t) k u e
  unfolding release
  release-Holds table c t k u e ne held = record {
    acquired_at = held.acquired_at;
    row =
        lookup-keep (λ row. not (str_eq row.0 c && str_eq row.1.owner_token t)) k
          (λ j. ground (arith)) table held.row;
  }

  module _ (table : Dict (Lease fl.F)) (c t : String) (now duration : fl.F) where
    granted-after :
        {after : Dict (Lease fl.F)}
        → try_acquire fl table c t now duration ≡ (true, after)
        → after ≡ insert c (new_lease fl t now duration) table
    unfolding try_acquire
    granted-after h = ground arith

    refused-after :
        {after : Dict (Lease fl.F)}
        → try_acquire fl table c t now duration ≡ (false, after)
        → after ≡ table
    unfolding try_acquire
    refused-after h = ground arith

    -- A row that is replaced has expired.
    granted-expired :
        {after : Dict (Lease fl.F)} (row : Lease fl.F)
        → try_acquire fl table c t now duration ≡ (true, after)
        → lookup c table ≡ some row
        → fl.leb row.expires_at now ≡ true
    unfolding try_acquire
    granted-expired row h e = ground arith

    pub granted-Holds :
        {after : Dict (Lease fl.F)}
        → try_acquire fl table c t now duration ≡ (true, after)
        → Holds after c t (fl.add now duration)
    granted-Holds h = record {
      acquired_at = now;
      row =
          ap (lookup c) (granted-after h)
          ∙ lookup-insert c c (new_lease fl t now duration) table
          ∙ rw (text_eq_refl c);
    }

    -- A grant keeps each row that has not expired.
    granted-keeps :
        {after : Dict (Lease fl.F)} (k u : String) (e : fl.F)
        → try_acquire fl table c t now duration ≡ (true, after)
        → fl.leb e now ≡ false
        → Holds table k u e
        → Holds after k u e
    granted-keeps k u e h live held = record {
      acquired_at = held.acquired_at;
      row = ground (
        arith,
        granted-after h,
        lookup-insert c k (new_lease fl t now duration) table,
        eq_iff c k,
        held.row,
        granted-expired (record { owner_token = u; acquired_at = held.acquired_at; expires_at = e })
            h,
      );
    }

module _ (fl : Float) (requests : ℕ → LeaseRequest fl.F) where
  -- No two requests have the same token.
  abbrev pub HaveOwnTokens : Type 0
  HaveOwnTokens =
      (i j : ℕ) → str_eq (requests i).owner_token (requests j).owner_token ≡ true → i ≡ j

inside_injective : {F : Type 0} {a b : F} → inside a ≡ inside b → a ≡ b
inside_injective h = cc

module _ (fl : Float) (ordered : IsOrdered fl) (ttl : fl.F) (requests : ℕ → LeaseRequest fl.F) where
  -- Whoever is inside with a lease that has not expired has the campaign's row.
  abbrev Guarded : Dict (Lease fl.F) → fl.F → (ℕ → Phase fl.F) → Type 0
  Guarded table now phase =
      (i : ℕ) (e : fl.F)
      → phase i ≡ inside e
      → fl.leb e now ≡ false
      → Holds fl table (requests i).campaign_id (requests i).owner_token e

  -- A request that is about to try has read the time before.
  abbrev Timely : fl.F → (ℕ → Phase fl.F) → Type 0
  Timely now phase =
      (i : ℕ) (deadline duration read : fl.F)
      → phase i ≡ trying deadline duration read
      → fl.leb read now ≡ true

  -- What has not expired by now had not expired at an earlier reading.
  still_live :
      {e read now : fl.F} → fl.leb read now ≡ true → fl.leb e now ≡ false → fl.leb e read ≡ false
  still_live {e} {read} {now} passed live = elim (Bool-cases (fl.leb e read)) [
    | inl expired ↦ ground (arith, ordered.leb_trans e read now expired passed)
    | inr live ↦ live
  ]

  -- The move's own reading, if it is about to try, is no later than now.
  abbrev Early : fl.F → Phase fl.F → Type 0
  Early now p =
      (deadline duration read : fl.F) → p ≡ trying deadline duration read → fl.leb read now ≡ true

  module _ (tokens : HaveOwnTokens fl requests) {table : Dict (Lease fl.F)} {now : fl.F}
      {phase : ℕ → Phase fl.F} (guarded : Guarded table now phase) (i : ℕ) where
    -- The lease of another request stands after a move.
    Move-others :
        {p p' : Phase fl.F} {after : Dict (Lease fl.F)}
        → Move fl ttl (requests i) table now p p' after
        → Early now p
        → (j : ℕ) (e : fl.F) → i ≢ j
        → phase j ≡ inside e
        → fl.leb e now ≡ false
        → Holds fl after (requests j).campaign_id (requests j).owner_token e
    Move-others (ask _ _) early j e ne h live = guarded j e h live
    Move-others (grant {deadline} {duration} {read} q) early j e ne h live =
        granted-keeps fl table (requests i).campaign_id (requests i).owner_token read duration
          (requests j).campaign_id (requests j).owner_token e q
          (still_live (early deadline duration read refl) live) (guarded j e h live)
    Move-others (retry {duration} {read} _ q _) early j e ne h live =
        rw
          (refused-after fl table (requests i).campaign_id (requests i).owner_token read duration q)
          (guarded j e h live)
    Move-others (give_up {duration} {read} _ q _) early j e ne h live =
        rw
          (refused-after fl table (requests i).campaign_id (requests i).owner_token read duration q)
          (guarded j e h live)
    Move-others leave early j e ne h live =
        release-Holds fl table (requests i).campaign_id (requests i).owner_token
          (requests j).campaign_id (requests j).owner_token e
          (elim (Bool-cases (str_eq (requests j).owner_token (requests i).owner_token)) [
            | inl same ↦ absurd (ne (sym (tokens j i same)))
            | inr other ↦ other
          ])
          (guarded j e h live)
    Move-others (read_time _) early j e ne h live = guarded j e h live
    Move-others stop early j e ne h live = guarded j e h live
    Move-others acquire_fault early j e ne h live = guarded j e h live
    Move-others release_fault early j e ne h live = guarded j e h live

    -- The request that moves is inside afterwards only by a grant.
    Move-own :
        {p p' : Phase fl.F} {after : Dict (Lease fl.F)}
        → Move fl ttl (requests i) table now p p' after
        → (e : fl.F) → p' ≡ inside e
        → Holds fl after (requests i).campaign_id (requests i).owner_token e
    Move-own (grant {duration} {read} q) e h =
        subst (Holds fl _ (requests i).campaign_id (requests i).owner_token) (inside_injective h)
          (granted-Holds fl table (requests i).campaign_id (requests i).owner_token read duration q)
    Move-own (ask _ _) e h = cc
    Move-own (read_time _) e h = cc
    Move-own stop e h = cc
    Move-own (retry _ _ _) e h = cc
    Move-own (give_up _ _ _) e h = cc
    Move-own leave e h = cc
    Move-own acquire_fault e h = cc
    Move-own release_fault e h = cc

    Move-Guarded :
        {p' : Phase fl.F} {after : Dict (Lease fl.F)}
        → Move fl ttl (requests i) table now (phase i) p' after
        → Early now (phase i)
        → Guarded after now (update phase i p')
    Move-Guarded {p'} {after} mv early j e h live = elim (Bool-cases (i == j)) [
      | inl same ↦ own j (ground arith) (ground arith)
      | inr other ↦ Move-others mv early j e (ground arith) (ground arith) live
    ]
      where
        own :
            (j : ℕ)
            → i ≡ j
            → p' ≡ inside e
            → Holds fl after (requests j).campaign_id (requests j).owner_token e
        own j same h =
            subst (λ k. Holds fl after (requests k).campaign_id (requests k).owner_token e) same
              (Move-own mv e h)

  -- A request that is about to try after a move has read the time just now, or was so before.
  Move-Early :
      (i : ℕ) {table : Dict (Lease fl.F)} {now : fl.F} {p p' : Phase fl.F}
      {after : Dict (Lease fl.F)}
      → Move fl ttl (requests i) table now p p' after
      → Early now p'
  Move-Early i {table} {now} (read_time not_nan) deadline duration read h =
      let same : now ≡ read = cc in
      elim (ordered.leb_total now now not_nan not_nan) [
        | inl e ↦ subst (λ t. fl.leb t now ≡ true) same e
        | inr e ↦ subst (λ t. fl.leb t now ≡ true) same e
      ]
  Move-Early i (ask _ _) deadline duration read h = cc
  Move-Early i (grant q) deadline duration read h = cc
  Move-Early i (retry _ _ _) deadline duration read h = cc
  Move-Early i (give_up _ _ _) deadline duration read h = cc
  Move-Early i leave deadline duration read h = cc
  Move-Early i acquire_fault deadline duration read h = cc
  Move-Early i stop deadline duration read h = cc
  Move-Early i release_fault deadline duration read h = cc

  Step-Timely :
      {s t : Coordination fl.F}
      → Step fl ttl requests s t
      → Timely s.clock s.phase
      → Timely t.clock t.phase
  Step-Timely {s} (pick i {now} {p} passed mv) timely j deadline duration read h =
      elim (Bool-cases (i == j)) [
        | inl same ↦ Move-Early i mv deadline duration read (ground arith)
        | inr other ↦
            ordered.leb_trans read s.clock now (timely j deadline duration read (ground arith))
              passed
      ]

  Step-Guarded :
      {s t : Coordination fl.F}
      → HaveOwnTokens fl requests
      → Step fl ttl requests s t
      → Timely s.clock s.phase
      → Guarded s.table s.clock s.phase
      → Guarded t.table t.clock t.phase
  Step-Guarded {s} tokens (pick i {now} passed mv) timely guarded =
      Move-Guarded tokens (λ j e h live. guarded j e h (still_live passed live)) i mv
        (λ deadline duration read h.
          ordered.leb_trans read s.clock now (timely i deadline duration read h) passed)

  Reach-Timely :
      {table : Dict (Lease fl.F)} {clock : fl.F} {s : Coordination fl.F}
      → Reach fl ttl requests table clock s
      → Timely s.clock s.phase
  Reach-Timely start = λ i deadline duration read h. cc
  Reach-Timely (later r st) = Step-Timely st (Reach-Timely r)

  Reach-Guarded :
      {table : Dict (Lease fl.F)} {clock : fl.F} {s : Coordination fl.F}
      → HaveOwnTokens fl requests
      → Reach fl ttl requests table clock s
      → Guarded s.table s.clock s.phase
  Reach-Guarded tokens start = λ i e h live. cc
  Reach-Guarded tokens (later r st) =
      Step-Guarded tokens st (Reach-Timely r) (Reach-Guarded tokens r)

  -- At no time do two requests for one campaign stand inside with leases that have not expired, if
  -- no two requests have the same token and the clock of the service never goes back. Between the
  -- reading of the clock and its transaction a request may be overtaken by others.
  pub mutual_exclusion :
      {table : Dict (Lease fl.F)} {clock : fl.F} {s : Coordination fl.F}
      → HaveOwnTokens fl requests
      → Reach fl ttl requests table clock s
      → (i j : ℕ) (e f : fl.F) → s.phase i ≡ inside e
      → s.phase j ≡ inside f
      → fl.leb e s.clock ≡ false
      → fl.leb f s.clock ≡ false
      → (requests i).campaign_id ≡ (requests j).campaign_id
      → i ≡ j
  mutual_exclusion {s} tokens r i j e f in_i in_j live_i live_j same = tokens i j (
      ground (
        arith,
        (Reach-Guarded tokens r i e in_i live_i).row,
        (Reach-Guarded tokens r j f in_j live_j).row,
        ap (λ c. lookup c s.table) same,
        eq_iff (requests i).owner_token (requests j).owner_token,
      ))
