-- ===== src/ReadSide/Pages.antt =====
-- The pages of one listing.
use mathlib.Core.List.{map-append}
use fast_api_layers.Prelude.{
  ℕ, zero, suc, ◌+◌, ◌-◌, ◌*◌, ◌≤◌, ◌≡◌, sym, ap, ◌∙◌, List, [], ◌++◌, map, arith, length, take,
  drop, take-add, take_all, length-take_le, length-map, drop_all, take_none,
}
use fast_api_layers.Value.{Value}
use fast_api_layers.Projection.Session.{Entity}
use fast_api_layers.ReadSide.{Select, Database, page_of}

-- What SQL promises of `count`, `limit` and `offset`, on a database that does not change and that
-- orders the rows of a query the same way each time.
pub record Answers (db : Database) (rows : Select → List Entity) : Type 0 where
  pub count_eq : (q : Select) → db.count q ≡ length (rows q)
  pub fetch_eq :
      (q : Select) (limit offset : ℕ) → db.fetch q limit offset ≡ take limit (drop offset (rows q))

module _ ⦃db : Database⦄ where
  -- the items of the first `n` pages, one after the other
  abbrev pub first_pages : Select → ℕ → ℕ → List Value
  first_pages q size zero = []
  first_pages q size (suc n) = first_pages q size n ++ (page_of q (suc n) size).items

  module _ (rows : Select → List Entity) (answers : Answers db rows) where
    first_pages-take :
        (q : Select) (size n : ℕ)
        → first_pages q size n ≡ map (db.model_validate q.table) (take (n * size) (rows q))
    unfolding page_of
    first_pages-take q size zero =
        let e : 0 ≡ zero * size = omega arith in
        ap (λ k. map (db.model_validate q.table) (take k (rows q))) e
    first_pages-take q size (suc n) =
        let start : (suc n - 1) * size ≡ n * size = ap (λ k. k * size) (omega arith) in
        let end_ : n * size + size ≡ suc n * size = omega arith in
        let f = map (db.model_validate q.table) in
        ap (λ ys. ys ++ f (db.fetch q size ((suc n - 1) * size))) (first_pages-take q size n)
        ∙ ap (λ ys. f (take (n * size) (rows q)) ++ f ys)
            (answers.fetch_eq q size ((suc n - 1) * size)
              ∙ ap (λ k. take size (drop k (rows q))) start)
        ∙ sym (
            map-append (db.model_validate q.table) (take (n * size) (rows q))
              (take size (drop (n * size) (rows q))))
        ∙ ap f (sym (take-add (n * size) size (rows q)))
        ∙ ap (λ k. f (take k (rows q))) end_

    -- Where the database answers as SQL promises, from a result that does not change, and `n` pages
    -- have room for all rows of a query, the items of the pages from 1 to `n` of its listing, one
    -- after the other, are the query's rows, each once and in the query's order.
    pub first_pages_complete :
        (q : Select) (size n : ℕ)
        → length (rows q) ≤ n * size
        → first_pages q size n ≡ map (db.model_validate q.table) (rows q)
    first_pages_complete q size n fits =
        first_pages-take q size n
        ∙ ap (λ ys. map (db.model_validate q.table) ys) (take_all (n * size) (rows q) fits)

    -- Where the database answers as SQL promises, every page of a listing holds at most `page_size`
    -- items and reports the number of all rows as its total; a page that starts at or behind the
    -- last row is empty.
    pub page_of_bounds :
        (q : Select) (page page_size : ℕ)
        → (length (page_of q page page_size).items ≤ page_size)
          × ((page_of q page page_size).total ≡ length (rows q))
          × (length (rows q) ≤ (page - 1) * page_size → (page_of q page page_size).items ≡ [])
    unfolding page_of
    page_of_bounds q page page_size =
        let start = (page - 1) * page_size in
        let f = db.model_validate q.table in
        let bounded : length (map f (db.fetch q page_size start)) ≤ page_size = omega (
          arith,
          length-map f (db.fetch q page_size start),
          ap (λ ys. length ys) (answers.fetch_eq q page_size start),
          length-take_le page_size (drop start (rows q)),
        ) in
        (
          bounded,
          answers.count_eq q,
          λ behind.
              ap (λ ys. map f ys) (answers.fetch_eq q page_size start)
              ∙ ap (λ ys. map f (take page_size ys)) (drop_all start (rows q) behind)
              ∙ ap (λ ys. map f ys) (take_none page_size),
        )
