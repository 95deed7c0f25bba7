-- ===== src/Repository/Errors.antt =====
-- The errors of repository.go. `fmt.Errorf` with `%w` keeps the wrapped error for
-- `errors.Is`; the UID or the name that `%v` adds to a text is left out.
use gorder.Prelude.{String, Bool, true, false}
use gorder.Repository.Driver.{DbError, no_rows, other}

pub data RepoError : Type 0 where
  wrapped : String → DbError → RepoError
  already_exists : String → RepoError

-- `errors.Is(err, pgx.ErrNoRows)`
unfoldable pub is_no_rows : RepoError → Bool
is_no_rows (wrapped _ no_rows) = true
is_no_rows (wrapped _ (other _)) = false
is_no_rows (already_exists _) = false
