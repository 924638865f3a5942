-- ===== src/Invariant/History.antt =====
-- The rule for what may happen to a row of `appraisals` over time, by whatever hand.
use review_service.Prelude.{
  ◌≡◌, refl, Bool, some, List, ◌++◌, find, map_where, Bool-cases, inl, inr, true, arith, ◌∙◌,
}
use review_service.Domain.Appraisal.{Uuid, completed}
use review_service.World.Tables.{AppraisalRow}
use review_service.Repository.Statements.{has_id}
use review_service.Invariant.Rows.{find-map_where, find-append}

-- `b` is a later version of the row `a`.
pub record IsSuccessor (a b : AppraisalRow) : Type 0 where
  pub same_id : b.id ≡ a.id
  pub same_request : b.request_id ≡ a.request_id
  pub same_created : b.created_at ≡ a.created_at
  pub frozen : a.status ≡ completed → b ≡ a

abbrev pub Evolves : List AppraisalRow → List AppraisalRow → Type 0
Evolves rows rows' =
    (id : Uuid) (a : AppraisalRow)
    → find (has_id id) rows ≡ some a
    → (b : AppraisalRow) × (find (has_id id) rows' ≡ some b) × IsSuccessor a b

pub IsSuccessor-refl : (a : AppraisalRow) → IsSuccessor a a
IsSuccessor-refl a = record {
  same_id = refl;
  same_request = refl;
  same_created = refl;
  frozen = λ _. refl;
}

pub IsSuccessor-trans : {a b c : AppraisalRow} → IsSuccessor a b → IsSuccessor b c → IsSuccessor a c
IsSuccessor-trans {a} {b} {c} p q = record {
  same_id = q.same_id ∙ p.same_id;
  same_request = q.same_request ∙ p.same_request;
  same_created = q.same_created ∙ p.same_created;
  frozen = λ e. let eb = p.frozen e in q.frozen (ground arith) ∙ eb;
}

pub Evolves-refl : (rows : List AppraisalRow) → Evolves rows rows
Evolves-refl rows id a e = (a, e, IsSuccessor-refl a)

pub Evolves-trans :
    (rows rows' rows'' : List AppraisalRow)
    → Evolves rows rows'
    → Evolves rows' rows''
    → Evolves rows rows''
Evolves-trans rows rows' rows'' p q id a e =
    let (b, eb, ab) = p id a e in let (c, ec, bc) = q id b eb in (c, ec, IsSuccessor-trans ab bc)

pub append-Evolves : (rows new : List AppraisalRow) → Evolves rows (rows ++ new)
append-Evolves rows new id a e = (a, find-append (has_id id) rows new a e, IsSuccessor-refl a)

-- A conditional update that keeps the identity of rows and hits no completed row.
pub map_where-Evolves :
    (p : AppraisalRow → Bool) (f : AppraisalRow → AppraisalRow) (rows : List AppraisalRow)
    → ((x : AppraisalRow) → (f x).id ≡ x.id)
    → ((x : AppraisalRow) → (f x).request_id ≡ x.request_id)
    → ((x : AppraisalRow) → (f x).created_at ≡ x.created_at)
    → ((id : Uuid) (a : AppraisalRow)
        → find (has_id id) rows ≡ some a
        → p a ≡ true
        → a.status ≡ completed
        → ⊥)
    → Evolves rows (map_where p f rows)
map_where-Evolves p f rows ki kr kc misses id a e =
    let moved = find-map_where p f id rows a ki e in
    elim (Bool-cases (p a)) [
      | inl hit ↦ (
        f a,
        rw (hit) at moved,
        record {
          same_id = ki a;
          same_request = kr a;
          same_created = kc a;
          frozen = λ done. absurd (misses id a e hit done);
        },
      )
      | inr miss ↦ (a, rw (miss) at moved, IsSuccessor-refl a)
    ]
