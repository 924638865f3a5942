-- ===== src/Storage.antt =====
-- internal/storage/storage.go: `StubStorage`, the one implementation of `ReportStorage`.
use Prim.Native.String.{◌++◌}
use review_service.Prelude.{String}
use review_service.Domain.Appraisal.{Uuid}
use review_service.World.{Env, Action, pure, ◌>>=◌, new_uuid}

pub record StubStorage : Type 0 where
  pub endpoint : String
  pub bucket : String

-- `fmt.Sprintf("appraisals/%s/%s-%s", …)`.
unfoldable pub report_key : String → String → String → String
report_key id_text random filename =
    "appraisals/" ++ (id_text ++ ("/" ++ (random ++ ("-" ++ filename))))

unfoldable pub key_for : {E : Type 0} → Env → Uuid → String → Action E String
unfolding report_key
key_for env appraisal_id filename = do
  random ← new_uuid env
  pure (report_key (env.uuid_text appraisal_id) (env.uuid_text random) filename)

-- `fmt.Sprintf("%s/%s/%s?stub-presigned=true", …)`; the stub never fails.
unfoldable pub presign_upload : StubStorage → String → String
presign_upload store key =
    store.endpoint ++ ("/" ++ (store.bucket ++ ("/" ++ (key ++ "?stub-presigned=true"))))
