-- ===== src/Handler/Paging/Bounds.antt =====
-- The page and the limit of `List` in internal/handler/appraisal.go, for every query.
use review_service.Prelude.{
  ℕ, zero, suc, ◌≤◌, ◌≡◌, refl, ap, ◌⊎◌, inl, inr, String, true, Option, ℤ, pos, negsuc, List, [],
  ◌∷◌, length, take, map, str_eq, arith,
}
use review_service.Domain.Appraisal.{Appraisal}
use review_service.Domain.Errors.{RepoError, Error, Result, ok, err}
use review_service.World.{
  Env, World, Action, Post, Ensures, bind-Ensures, pure-Ensures, map_err-Ensures, call-Ensures,
}
use review_service.World.Tables.{Shared}
use review_service.Storage.{StubStorage}
use review_service.Repository
use review_service.Repository.Statements.{scan_appraisal, select_page}
use review_service.Service
use review_service.Http.{Response, respond_json}
use review_service.Handler.{Request, Reply, serve}
use review_service.Handler.Bodies.{Decoders}
use review_service.Handler.Appraisals
use review_service.Handler.Appraisals.{failed_to_list}
use review_service.Handler.Paging.{parse_int_param, clamp_page, clamp_limit, page_offset}

clamp_page-positive : (v : ℤ) → 1 ≤ clamp_page v
unfolding clamp_page
clamp_page-positive (pos n) = ground arith
clamp_page-positive (negsuc n) = omega arith

clamp_limit-range : (v : ℤ) → (1 ≤ clamp_limit v) × (clamp_limit v ≤ 100)
unfolding clamp_limit
clamp_limit-range (pos n) = ground arith
clamp_limit-range (negsuc n) = (omega arith, omega arith)

length-take : {A : Type 0} (n : ℕ) (xs : List A) → length (take n xs) ≤ n
length-take zero xs = omega arith
length-take (suc n) [] = omega arith
length-take (suc n) (x ∷ xs) = omega (arith, length-take n xs)

length-map : {A B : Type 0} (f : A → B) (xs : List A) → length (map f xs) ≡ length xs
length-map f [] = refl
length-map f (x ∷ xs) = ap suc (length-map f xs)

-- A page of the list, or 500.
abbrev pub IsPage : Response Reply → Type 0
IsPage out =
    (out.status ≡ 500)
    ⊎ ((found : List Appraisal) × (page : ℕ) × (limit : ℕ) × (out
          ≡ respond_json 200 (Reply.page found page limit))
        × (1 ≤ page)
        × (1 ≤ limit)
        × (limit ≤ 100)
        × (length found ≤ limit))

module _ (env : Env) where
  abbrev Any : Shared → Type 0
  Any s = Unit

  list_all-Ensures :
      (limit : ℕ) (offset : ℤ)
      → Ensures Any Any (Service.list_all env (pos limit) offset) (λ found s. length found ≤ limit)
  unfolding Service.list_all Repository.list_all select_page
  list_all-Ensures limit offset = map_err-Ensures Service.raw_error (
      bind-Ensures
        (call-Ensures env {Q = λ rows s. length rows ≤ limit} RepoError.driver _ (λ k s h. tt)
          (λ s h. tt) (λ s h. tt) (λ s h. selected offset s))
        (λ rows.
          pure-Ensures {a = map scan_appraisal rows}
            (λ s h. rw (length-map scan_appraisal rows) h)))
    where
      selected :
          (offset : ℤ) (s : Shared)
          → Post Any (λ rows s. length rows ≤ limit) (select_page (pos limit) offset s) s
      selected (pos n) s = length-take limit _
      selected (negsuc n) s = tt

  serve-IsPage :
      (page limit : ℕ) (r : Result Error (List Appraisal)) (v : World)
      → 1 ≤ page
      → (1 ≤ limit) × (limit ≤ 100)
      → Post Any (λ found s. length found ≤ limit) r v.shared
      → let m : Action Error (List Appraisal) = λ _. (r, v) in
        IsPage
          (serve m failed_to_list (λ found. respond_json 200 (Reply.page found page limit)) v).0
  serve-IsPage page limit (ok found) v hp hl h = inr (found, page, limit, refl, hp, hl.0, hl.1, h)
  serve-IsPage page limit (err e) v hp hl h = inl refl

  -- Whatever the query asks for and whatever else happens, without a request or an appraiser `List`
  -- answers 500 or a page with a positive number, a limit between 1 and 100, and at most as many
  -- appraisals as the limit.
  pub list-IsPage :
      (storage : StubStorage) (decoders : Decoders) (atoi : String → Option ℤ) (r : Request)
      (w : World)
      → str_eq (r.query "request_id") "" ≡ true
      → str_eq (r.query "appraiser_id") "" ≡ true
      → IsPage (Appraisals.list env storage decoders atoi r w).0
  unfolding Appraisals.list Appraisals.list_page
  list-IsPage storage decoders atoi r w no_request no_appraiser =
      let page = clamp_page (parse_int_param atoi (r.query "page") (pos 1)) in
      let limit = clamp_limit (parse_int_param atoi (r.query "limit") (pos 20)) in
      let out = Service.list_all env (pos limit) (page_offset page limit) w in
      rw (no_request, no_appraiser)
        (serve-IsPage page limit out.0 out.1 (clamp_page-positive _) (clamp_limit-range _)
          ((list_all-Ensures limit (page_offset page limit)).run w tt))
