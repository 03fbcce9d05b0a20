-- ===== src/Catalog.antt =====
-- packages/python/platform_core/service_catalog.py: the services that a running processor supports.
-- `rank` is the place of a row in `ORDER BY c.name_ar,s.name_ar,s.id`, which follows the collation
-- of the database.
use digital_services_platfor.Base.{
  ℕ, Bool, true, false, not, ◌&&◌, ◌||◌, Option, none, some, List, [], ◌∷◌, map, leb, ◌==◌,
  if◌then◌else◌, eqb, is_some, find, exists, order_by, select, take,
}
use digital_services_platfor.Text.{Text, text}
use digital_services_platfor.Exec.{value_error, Result, ok, err}
use digital_services_platfor.Schema.{
  CategoryRow, Currency, Db, InputSchema-discrete, RowId, ServiceRow, Currency-discrete,
  ProcessorType-discrete, ProcessorType,
}
use digital_services_platfor.Ledger.{same_text}
use digital_services_platfor.Stars.Offers.{
  is_text, pdf_input_schema, text_input_schema, summary_slug,
}

pub record CatalogService : Type 0 where
  pub id : RowId
  pub slug : Text
  pub name_ar : Text
  pub category_name_ar : Text
  pub price_halalas : ℕ
  pub price_stars : Option ℕ
  pub description_ar : Text

-- A service with its category.
pub record Listed : Type 0 where
  pub service : ServiceRow
  pub category : CategoryRow

unfoldable pub join_categories : List CategoryRow → List ServiceRow → List Listed
join_categories cs [] = []
join_categories cs (s ∷ ss) =
    let rest = join_categories cs ss in
    elim (find (λ c. c.id == s.category_id) cs) [
      | none ↦ rest
      | some c ↦ record { service = s; category = c } ∷ rest
    ]

-- `$2::uuid IS NULL OR s.id=$2`
abbrev pub wanted : Option RowId → ServiceRow → Bool
wanted none s = true
wanted (some id) s = s.id == id

abbrev pub open_tool : Option RowId → Listed → Bool
open_tool id l =
    l.service.enabled
    && l.category.enabled
    && eqb ProcessorType-discrete l.service.processor_type ProcessorType.tool
    && wanted id l.service

-- The keys of `PROCESSORS` of processors.py.
abbrev pub processor_slugs : List Text
processor_slugs = text "merge-pdf" ∷ []

abbrev pub is_processor : Text → Bool
is_processor slug = exists (λ p. same_text p slug) processor_slugs

abbrev pub offered_pdf : Currency → Listed → Bool
offered_pdf currency l =
    same_text l.service.slug (text "merge-pdf")
    && eqb InputSchema-discrete l.service.input_schema pdf_input_schema
    && (not (eqb Currency-discrete currency Currency.xtr) || is_some l.service.base_price_stars)

abbrev pub catalog_service : Text → Listed → CatalogService
catalog_service description l = record {
  id = l.service.id;
  slug = l.service.slug;
  name_ar = l.service.name_ar;
  category_name_ar = l.category.name_ar;
  price_halalas = l.service.base_price_halalas;
  price_stars = l.service.base_price_stars;
  description_ar = description;
}

-- `base_price_stars BETWEEN 1 AND 100000`
abbrev pub stars_in_range : Option ℕ → Bool
stars_in_range none = false
stars_in_range (some n) = leb 1 n && leb n 100000

abbrev pub is_summary : ServiceRow → Bool
is_summary s = is_text s.processor_key summary_slug

abbrev pub summary_schema : Listed → Bool
summary_schema l = eqb InputSchema-discrete l.service.input_schema text_input_schema

module _ (rank : Listed → ℕ) where
  -- The first 50 rows of a query that keeps the rows of `p`.
  unfoldable pub catalog_rows : (Listed → Bool) → Db → List Listed
  catalog_rows p db = take 50 (order_by rank (select p (join_categories db.categories db.services)))

  unfoldable pub available_services : Option RowId → Currency → Db → Result (List CatalogService)
  available_services id currency db =
      if eqb Currency-discrete currency Currency.other_currency
      then err (value_error "unsupported catalog currency")
      else ok (
          map (catalog_service []) (
            select (offered_pdf currency)
              (catalog_rows (λ l. open_tool id l && is_processor l.service.slug) db)))

  unfoldable pub available_summary_products : Option RowId → Db → List CatalogService
  available_summary_products id db =
      map (λ l. catalog_service l.service.description_ar l)
        (select summary_schema (
          catalog_rows
            (λ l.
              open_tool id l && is_summary l.service && stars_in_range l.service.base_price_stars)
            db))
