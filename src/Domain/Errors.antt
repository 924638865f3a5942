-- ===== src/Domain/Errors.antt =====
-- internal/domain/errors.go and the error values of internal/repository/repository.go.
-- `driver` stands for every error that a layer passes on unread: the database driver's, a JSON
-- encoder's, the object store's.

-- What a repository method returns as its error.
pub data RepoError : Type 0 where
  not_found conflict driver : RepoError

-- What a service method returns as its error. `invalid_input` is `ErrInvalidCalculationInput`.
pub data Error : Type 0 where
  not_found forbidden invalid_status conflict invalid_input driver : Error

-- Go's pair of a value and an error, where exactly one is meant.
pub data Result (E A : Type 0) : Type 0 where
  ok : A → Result E A
  err : E → Result E A
