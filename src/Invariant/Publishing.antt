-- ===== src/Invariant/Publishing.antt =====
-- The batches of internal/outbox/relay.go against the invariant.
use review_service.Prelude.{
  ℕ, ◌+◌, ◌≡◌, refl, ap, Bool, List, [], ◌∷◌, ◌==◌, count, map_where, if◌then◌else◌, Bool-cases,
  inl, inr, ◌∙◌,
}
use review_service.Domain.Appraisal.{Uuid}
use review_service.Domain.Errors.{Error}
use review_service.World.{Env, IsStable, Keeps, bind-Ensures, pure-Ensures, call-Ensures}
use review_service.World.Tables.{Shared, OutboxRow}
use review_service.Relay.{
  with_message, with_published, set_published, publish, mark_published, publish_rows, publish_batch,
}
use review_service.Relay.Marking.{marked-IsAscending}
use review_service.Invariant.WellFormed.{IsCivil, IsReached, is_report_of}
use review_service.Invariant.Reading.{Reached-IsStable}

count-set_published :
    (env : Env) (request_id : Uuid) (p : OutboxRow → Bool) (rows : List OutboxRow)
    → count (is_report_of request_id) (map_where p (set_published env) rows)
      ≡ count (is_report_of request_id) rows
count-set_published env request_id p [] = refl
count-set_published env request_id p (x ∷ xs) = elim (Bool-cases (p x)) [
  | inl hit ↦ rw hit (
      ap (λ n. (if is_report_of request_id x then 1 else 0) + n)
        (count-set_published env request_id p xs))
  | inr miss ↦ rw miss (
      ap (λ n. (if is_report_of request_id x then 1 else 0) + n)
        (count-set_published env request_id p xs))
]

-- A batch against a condition that a message and a mark do not break.
module _ (env : Env) {P : Shared → Type 0} (stable : IsStable env P)
    (sent : (row : OutboxRow) (s : Shared) → P s → P (with_message env row s))
    (marked : (id : ℕ) (s : Shared) → P s → P (with_published env id s)) where
  publish-Keeps : (row : OutboxRow) → Keeps P (publish env row)
  unfolding publish
  publish-Keeps row = call-Ensures env Error.driver _ stable (λ s p. p) (sent row) (sent row)

  mark_published-Keeps : (id : ℕ) → Keeps P (mark_published env id)
  unfolding mark_published
  mark_published-Keeps id =
      call-Ensures env Error.driver _ stable (λ s p. p) (marked id) (marked id)

  publish_rows-Keeps : (rows : List OutboxRow) → Keeps P (publish_rows env rows)
  unfolding publish_rows
  publish_rows-Keeps [] = pure-Ensures (λ s p. p)
  publish_rows-Keeps (row ∷ rows) =
      bind-Ensures (publish-Keeps row)
        (λ x. bind-Ensures (mark_published-Keeps row.id) (λ y. publish_rows-Keeps rows))

  pub publish_batch-Keeps : Keeps P (publish_batch env)
  unfolding publish_batch
  publish_batch-Keeps =
      bind-Ensures (call-Ensures env Error.driver _ stable (λ s p. p) (λ s p. p) (λ s p. p))
        publish_rows-Keeps

module _ (env : Env) (civil : IsCivil env) (start : Shared) where
  abbrev Reached : Shared → Type 0
  Reached = IsReached start

  with_message-Reached :
      (row : OutboxRow) (s : Shared) → Reached s → Reached (with_message env row s)
  with_message-Reached row s r = record {
    formed = record {
      ids = r.formed.ids;
      requests = r.formed.requests;
      dated = r.formed.dated;
      agrees = r.formed.agrees;
      ascending = r.formed.ascending;
    };
    evolved = r.evolved;
  }

  with_published-Reached : (id : ℕ) (s : Shared) → Reached s → Reached (with_published env id s)
  with_published-Reached id s r = record {
    formed = record {
      ids = r.formed.ids;
      requests = r.formed.requests;
      dated = r.formed.dated;
      agrees = λ request_id.
          count-set_published env request_id (λ row. row.id == id) s.outbox
          ∙ r.formed.agrees request_id;
      ascending = marked-IsAscending env s.next_outbox_id id s.outbox r.formed.ascending;
    };
    evolved = r.evolved;
  }

  pub publish_batch-Reached : Keeps Reached (publish_batch env)
  publish_batch-Reached =
      publish_batch-Keeps env (Reached-IsStable env civil start) with_message-Reached
        with_published-Reached
