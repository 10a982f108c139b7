-- ===== src/ReadSide/Paged.antt =====
-- What a client of a listing gets.
use mathlib.Core.Path.{subst}
use fast_api_layers.Prelude.{
  ℕ, ◌≤◌, ◌≡◌, refl, sym, ap, ◌∙◌, Option, List, inl, inr, ◌⊎◌, true, false, Bool-cases, length,
  map, take, drop, ◌-◌, ◌*◌, arith,
}
use fast_api_layers.Effect.{Result, ok, err, request_validation_error}
use fast_api_layers.Platform.{Host, World}
use fast_api_layers.Projection.Session.{Entity}
use fast_api_layers.ReadSide.{Select, Database, Page, page_of}
use fast_api_layers.ReadSide.Pages.{Answers, page_of_bounds}
use fast_api_layers.ReadSide.Listings.{Listing, listed, read_listing, read_listing-listing}
use fast_api_layers.ReadSide.Requested.{requested, listed-requested}
use fast_api_layers.Http.{Web, HttpRequest, viewer}
use fast_api_layers.Http.Guard.{
  require_role-passed, Unpublished, permits, permits-ok, permits-known, not-true, entered,
}
use fast_api_layers.Http.Paging.{or_default, valid_paging, in_limits, listing}

-- The page of a query that has the given rows: within the limits that the routers declare, with the
-- DTOs of the rows that stand there and the number of all rows.
pub record IsPage (db : Database) (rows : Select → List Entity) (q : Select) (p : Page)
    : Type 0 where
  pub page_ge : 1 ≤ p.page
  pub size_ge : 1 ≤ p.page_size
  pub size_le : p.page_size ≤ 100
  pub items_le : length p.items ≤ p.page_size
  pub items_eq :
      p.items
      ≡ map
          (db.model_validate q.table)
          (take p.page_size (drop ((p.page - 1) * p.page_size) (rows q)))
  pub total_eq : p.total ≡ length (rows q)

valid_paging-bounds :
    (page page_size : ℕ)
    → valid_paging page page_size ≡ true
    → (1 ≤ page) × (1 ≤ page_size) × (page_size ≤ 100)
valid_paging-bounds page page_size p = ground arith

-- The outcome of a listing of a query whose parameters are `page` and `page_size`.
abbrev pub Paged : Database → (Select → List Entity) → Select → ℕ → ℕ → Result Page → Type 0
Paged db rows q page page_size out =
    ((valid_paging page page_size ≡ true)
      × (p : Page) × (out ≡ ok p)
      × (p.page ≡ page)
      × (p.page_size ≡ page_size)
      × IsPage db rows q p)
    ⊎ ((valid_paging page page_size ≡ false) × (out ≡ err request_validation_error))

module _ ⦃db : Database⦄ (rows : Select → List Entity) (answers : Answers db rows) where
  page_of-IsPage :
      (q : Select) (page page_size : ℕ)
      → valid_paging page page_size ≡ true
      → IsPage db rows q (page_of q page page_size)
  unfolding page_of
  page_of-IsPage q page page_size valid =
      let (page_ge, size_ge, size_le) = valid_paging-bounds page page_size valid in
      let (items_le, total_eq, _) = page_of_bounds rows answers q page page_size in
      record {
        page_ge = page_ge;
        size_ge = size_ge;
        size_le = size_le;
        items_le = items_le;
        items_eq =
            ap (λ l. map (db.model_validate q.table) l)
              (answers.fetch_eq q page_size ((page - 1) * page_size));
        total_eq = total_eq;
      }

  in_limits-Paged :
      (q : Select) (query : ℕ → ℕ → Page) (page page_size : ℕ) (w : World)
      → ((page page_size : ℕ) → query page page_size ≡ page_of q page page_size)
      → Paged db rows q page page_size (in_limits page page_size query w).0
        × ((in_limits page page_size query w).1 ≡ w)
  unfolding in_limits page_of
  in_limits-Paged q query page page_size w is_page =
      elim (Bool-cases (valid_paging page page_size)) [
        | inl e ↦ rw e (
          inl (
            refl,
            page_of q page page_size,
            ap (λ p. ok p) (is_page page page_size),
            refl,
            refl,
            page_of-IsPage q page page_size e,
          ),
          refl,
        )
        | inr e ↦ rw e (inr (refl, refl), refl)
      ]

  module _ ⦃h : Host⦄ ⦃web : Web⦄ where
    -- Where the database answers as SQL promises: a client that may view gets of each of the thirteen
    -- listings, with any parameters, the page that it asked for, 1 and 20 where it named none, of the
    -- listing's own table with its conditions and order. It holds the DTOs of the rows that stand on
    -- that page, at most as many as its size, which is at most 100, and the number of all rows as its
    -- total. Or, just when the page is 0 or the size is 0 or above 100, the parameters are refused.
    -- In both cases nothing is given to the publisher.
    pub read_listing-Paged :
        (r : HttpRequest) (l : Listing) (page page_size : Option ℕ) (w : World)
        → permits r viewer ≡ true
        → Paged db rows
            (requested l)
            (or_default 1 page)
            (or_default 20 page_size)
            (read_listing r l page page_size w).0
          × Unpublished w (read_listing r l page page_size w).1
    unfolding listing in_limits
    read_listing-Paged r l page page_size w p =
        let (context, identified) = permits-known r viewer p in
        let limits = in_limits (or_default 1 page) (or_default 20 page_size) (listed l) in
        let out =
          read_listing-listing r l page page_size w
          ∙ require_role-passed limits viewer r w identified
              (not-true _ (sym (permits-ok r viewer identified) ∙ p)) in
        let (paged, kept) =
          in_limits-Paged (requested l) (listed l) (or_default 1 page) (or_default 20 page_size)
            (entered context w) (listed-requested l) in
        (
          subst (Paged db rows (requested l) (or_default 1 page) (or_default 20 page_size))
              (ap (λ o. o.0) (sym out)) paged,
          (
            ap (λ o. o.1.published) out ∙ ap (λ s. s.published) kept,
            ap (λ o. o.1.publish_calls) out ∙ ap (λ s. s.publish_calls) kept,
          ),
        )
