-- ===== src/Http/Paging.antt =====
-- The query parameters `page: int = Query(default=1, ge=1)` and
-- `page_size: int = Query(default=20, ge=1, le=100)`, which every listing declares. A negative
-- number is refused as 0 is.
use fast_api_layers.Prelude.{ℕ, Bool, ◌&&◌, Option, none, some, leb, if◌then◌else◌}
use fast_api_layers.Effect.{Action, pure, raise, request_validation_error, ◌>>◌}
use fast_api_layers.Platform.{Host, World}
use fast_api_layers.ReadSide.{Page}
use fast_api_layers.Http.{Web, HttpRequest, viewer, require_role}

abbrev pub or_default : ℕ → Option ℕ → ℕ
or_default default none = default
or_default default (some n) = n

abbrev pub valid_paging : ℕ → ℕ → Bool
valid_paging page page_size = leb 1 page && leb 1 page_size && leb page_size 100

-- the check of the parameters, before the query
unfoldable pub in_limits : ℕ → ℕ → (ℕ → ℕ → Page) → Action World Page
in_limits page page_size query =
    if valid_paging page page_size
    then pure (query page page_size)
    else raise request_validation_error

module _ ⦃h : Host⦄ ⦃web : Web⦄ where
  -- a listing: the role, the parameters, and then the query
  unfoldable pub listing : HttpRequest → Option ℕ → Option ℕ → (ℕ → ℕ → Page) → Action World Page
  listing request page page_size query =
      require_role viewer request >> in_limits (or_default 1 page) (or_default 20 page_size) query
