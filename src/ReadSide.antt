-- ===== src/ReadSide.antt =====
-- The read side: app/db/repositories.py, and the queries that the modules build for it. A query is
-- what SQLAlchemy is given; the database that answers it is a parameter.
pub mod Pages
pub mod Listings
pub mod Requested
pub mod Paged
use Prim.Native.String.{◌++◌ as append}
use fast_api_layers.Prelude.{
  ℕ, ◌-◌, ◌*◌, String, Option, none, some, List, [], ◌∷◌, ◌++◌, map, if◌then◌else◌,
}
use fast_api_layers.Value.{Value, text, dict, truthy}
use fast_api_layers.Effect.{Result, ok, err, domain_error}
use fast_api_layers.Projection.Session.{Table, Entity}

-- the conditions of `where`
pub data Filter : Type 0 where
  equals : String → Value → Filter
  at_least : String → ℕ → Filter
  ilike : String → String → Filter
  any_of : Filter → Filter → Filter
  -- `column.in_(select(table.id).where(…))`
  in_ids : String → Table → Filter → Filter

-- `select(table).where(…).order_by(order_by.desc())`
pub record Select : Type 0 where
  pub table : Table
  pub filters : List Filter
  pub order_by : String

-- The database, and pydantic's `model_validate` of an entity as the table's DTO.
pub record Database : Type 0 where
  -- `select count(*) from (query)`
  pub count : Select → ℕ
  -- `query.limit(limit).offset(offset)`
  pub fetch : Select → ℕ → ℕ → List Entity
  pub get_by_id : Table → String → Option Entity
  pub model_validate : Table → Entity → Value

-- app/domain/schemas.py
pub record Page : Type 0 where
  pub items : List Value
  pub total : ℕ
  pub page : ℕ
  pub page_size : ℕ

-- the order of a table's rows, newest first by `column`
abbrev pub select : Table → String → Select
select table column = record { table = table; filters = []; order_by = column }

-- `if q: query = query.where(…)`
unfoldable pub where_given : Option String → (String → Filter) → Select → Select
where_given none condition query = query
where_given (some q) condition query =
    if truthy (text q) then record query { filters = query.filters ++ condition q ∷ [] } else query

-- `column.ilike(f"%{q}%")`
abbrev pub containing : String → String → Filter
containing column q = ilike column (append "%" (append q "%"))

-- `column == q`
abbrev pub is : String → String → Filter
is column q = equals column (text q)

module _ ⦃db : Database⦄ where
  -- Pages count from 1, which the routers check.
  unfoldable pub paginate_query : Select → ℕ → ℕ → List Entity × ℕ
  paginate_query query page page_size =
      (db.fetch query page_size ((page - 1) * page_size), db.count query)

  -- the end of every listing
  unfoldable pub page_of : Select → ℕ → ℕ → Page
  unfolding paginate_query
  page_of query page page_size =
      let (items, total) = paginate_query query page page_size in
      record {
        items = map (db.model_validate query.table) items;
        total = total;
        page = page;
        page_size = page_size;
      }

  -- the body of every reading of one entity
  unfoldable pub get_or_not_found : Table → String → String → String → Result Value
  get_or_not_found table id detail key = elim (db.get_by_id table id) [
    | none ↦ err (domain_error detail "not_found" (dict ((key, text id) ∷ [])))
    | some entity ↦ ok (db.model_validate table entity)
  ]
