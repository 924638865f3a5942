-- ===== src/Invariant/Statements.antt =====
-- The statements of internal/repository/postgres.go against the invariant and the history of the rows.
use review_service.Prelude.{
  All-append, ℕ, ◌≡◌, refl, ◌≢◌, Bool, false, none, some, List, [], ◌∷◌, ◌++◌, exists, find,
  count-append, map_where, All, arith, Bool-cases, Option-cases, inl, inr,
}
use review_service.Domain.Appraisal.{Uuid, Time, in_progress, completed, Comparable, Appraisal}
use review_service.World.Tables.{Shared, AppraisalRow}
use review_service.World.{Env}
use review_service.Repository.Statements.{
  Columns, bind_columns, insert_row, insert_appraisal, set_columns, is_unmodified, update_appraisal,
  insert_comparable, delete_comparable_row, has_id, has_request,
}
use review_service.Invariant.Rows.{
  append-IsUnique, map_where-IsUnique, is_closed_of, count-map_where, find-id,
}
use review_service.Invariant.History.{Evolves, Evolves-refl, append-Evolves, map_where-Evolves}
use review_service.Invariant.WellFormed.{IsDated, IsWellFormed}

-- A step of one statement.
pub record IsSound (s t : Shared) : Type 0 where
  pub formed : IsWellFormed t
  pub evolves : Evolves s.appraisals t.appraisals

pub IsSound-refl : (s : Shared) → IsWellFormed s → IsSound s s
IsSound-refl s v = record { formed = v; evolves = Evolves-refl s.appraisals }

-- A statement that touches neither appraisals nor outbox.
pub IsSound-same :
    (s t : Shared)
    → t.appraisals ≡ s.appraisals
    → t.outbox ≡ s.outbox
    → t.next_outbox_id ≡ s.next_outbox_id
    → IsWellFormed s
    → IsSound s t
IsSound-same s t ea eo en v = record {
  formed = record {
    ids = rw ea v.ids;
    requests = rw ea v.requests;
    dated = rw ea v.dated;
    agrees = λ request_id. rw (ea, eo) (v.agrees request_id);
    ascending = rw (eo, en) v.ascending;
  };
  evolves = rw ea (Evolves-refl s.appraisals);
}

pub map_where-IsDated :
    (p : AppraisalRow → Bool) (f : AppraisalRow → AppraisalRow) (rows : List AppraisalRow)
    → ((x : AppraisalRow)
        → IsDated x.status x.completed_at
        → IsDated (f x).status (f x).completed_at)
    → All (λ r. IsDated r.status r.completed_at) rows
    → All (λ r. IsDated r.status r.completed_at) (map_where p f rows)
map_where-IsDated p f [] keep h = tt
map_where-IsDated p f (x ∷ xs) keep h = elim (Bool-cases (p x)) [
  | inl hit ↦ rw hit (keep x h.0, map_where-IsDated p f xs keep h.1)
  | inr miss ↦ rw miss (h.0, map_where-IsDated p f xs keep h.1)
]

-- A new row in progress, under a new id and for a new request.
append_row-IsSound :
    (s : Shared) (new : AppraisalRow)
    → IsWellFormed s
    → exists (has_request new.request_id) s.appraisals ≡ false
    → exists (has_id new.id) s.appraisals ≡ false
    → new.status ≡ in_progress
    → new.completed_at ≡ none
    → IsSound s (record s { appraisals = s.appraisals ++ new ∷ [] })
append_row-IsSound s new v fresh_request fresh_id pending undated = record {
  formed = record {
    ids = append-IsUnique (λ r. r.id) s.appraisals new v.ids fresh_id;
    requests = append-IsUnique (λ r. r.request_id) s.appraisals new v.requests fresh_request;
    dated =
        All-append (λ r. IsDated r.status r.completed_at) s.appraisals new v.dated
          (rw (pending, undated) tt);
    agrees = λ request_id. ground (
      arith,
      v.agrees request_id,
      count-append (is_closed_of request_id) s.appraisals (new ∷ []),
    );
    ascending = v.ascending;
  };
  evolves = append-Evolves s.appraisals (new ∷ []);
}

module _ (env : Env) where
  insert_row-IsSound :
      (a : Appraisal) (c : Columns) (s : Shared)
      → IsWellFormed s
      → a.status ≡ in_progress
      → IsSound s (insert_row a c s).1
  unfolding insert_row
  insert_row-IsSound a c s v pending =
      elim (Bool-cases (exists (has_request a.request_id) s.appraisals)) [
        | inl again ↦ rw again (IsSound-refl s v)
        | inr fresh_request ↦ elim (Bool-cases (exists (has_id a.id) s.appraisals)) [
          | inl taken ↦ rw (fresh_request, taken) (IsSound-refl s v)
          | inr fresh_id ↦
              rw (fresh_request, fresh_id)
                (append_row-IsSound s _ v fresh_request fresh_id pending refl)
        ]
      ]

  pub insert_appraisal-IsSound :
      (a : Appraisal) (s : Shared)
      → IsWellFormed s
      → a.status ≡ in_progress
      → IsSound s (insert_appraisal env a s).1
  unfolding insert_appraisal
  insert_appraisal-IsSound a s v pending = elim (Option-cases (bind_columns env a)) [
    | inl refused ↦ rw (refused, insert_appraisal) (IsSound-refl s v)
    | inr (c, bound) ↦ rw (bound, insert_appraisal) (insert_row-IsSound a c s v pending)
  ]

  -- The stamp that the caller has read is not that of a completed row.
  abbrev pub IsOpenStamp : Uuid → Time → Shared → Type 0
  IsOpenStamp id stamp s =
      (row : AppraisalRow)
      → find (has_id id) s.appraisals ≡ some row
      → row.status ≡ completed
      → row.updated_at ≢ stamp

  -- Other processes never complete the row with the stamp `u`, which it has had before.
  abbrev pub AvoidsStamp : Uuid → Time → Type 0
  AvoidsStamp id u = (k : ℕ) (s : Shared) → IsOpenStamp id u s → IsOpenStamp id u (env.others k s)

  set_columns-IsSound :
      (a : Appraisal) (prev : Time) (c : Columns) (s : Shared)
      → IsWellFormed s
      → IsOpenStamp a.id prev s
      → IsSound s (record s {
        appraisals = map_where (is_unmodified a.id prev) (set_columns a c) s.appraisals;
      })
  set_columns-IsSound a prev c s v guarded =
      let hit = is_unmodified a.id prev in
      let change = set_columns a c in
      record {
        formed = record {
          ids = map_where-IsUnique hit change (λ r. r.id) s.appraisals (λ x. refl) v.ids;
          requests =
              map_where-IsUnique hit change (λ r. r.request_id) s.appraisals (λ x. refl) v.requests;
          dated = map_where-IsDated hit change s.appraisals (λ x d. d) v.dated;
          agrees = λ request_id.
              rw (count-map_where request_id hit change s.appraisals (λ x. refl) (λ x. refl))
                (v.agrees request_id);
          ascending = v.ascending;
        };
        evolves =
            map_where-Evolves hit change s.appraisals (λ x. refl) (λ x. refl) (λ x. refl)
              (λ id row e p done.
                let same : id ≡ a.id = ground (arith, find-id id s.appraisals row e) in
                let found : find (has_id a.id) s.appraisals ≡ some row = rw (same) at e in
                ground (arith, guarded row found done));
      }

  pub update_appraisal-IsSound :
      (a : Appraisal) (prev : Time) (s : Shared)
      → IsWellFormed s
      → IsOpenStamp a.id prev s
      → IsSound s (update_appraisal env a prev s).1
  unfolding update_appraisal
  update_appraisal-IsSound a prev s v guarded = elim (Option-cases (bind_columns env a)) [
    | inl refused ↦ rw (refused, update_appraisal) (IsSound-refl s v)
    | inr (c, bound) ↦ rw (bound, update_appraisal) (set_columns-IsSound a prev c s v guarded)
  ]

  pub insert_comparable-IsSound :
      (comp : Comparable) (s : Shared) → IsWellFormed s → IsSound s (insert_comparable env comp s).1
  unfolding insert_comparable
  insert_comparable-IsSound comp s v =
      IsSound-same s _ (ground arith) (ground arith) (ground arith) v

pub delete_comparable_row-IsSound :
    (appraisal_id id : Uuid) (s : Shared)
    → IsWellFormed s
    → IsSound s (delete_comparable_row appraisal_id id s).1
unfolding delete_comparable_row
delete_comparable_row-IsSound appraisal_id id s v = IsSound-same s _ refl refl refl v
