-- ===== src/Api/Pagination.antt =====
-- Pagination in src/models/api.rs. `u32` has 32 bits; the conversion of f64 to it saturates, and how
-- a number is written is the formatter's, an argument.
use Prim.Native.Nat.{min}
use analytics_hub.Prelude.{ℕ, ◌+◌, ◌-◌, ◌%◌, String, Option, none, some, Bool, ltb, if◌then◌else◌}
use analytics_hub.Prelude.Float.{FloatOps}
use analytics_hub.Prelude.Text.{◌++◌}

pub record PaginationLinks : Type 0 where
  pub first : String
  pub last : String
  pub next : Option String
  pub prev : Option String
  pub self_link : String

pub record PaginationMetadata : Type 0 where
  pub page : ℕ
  pub per_page : ℕ
  pub total_items : ℕ
  pub total_pages : ℕ
  pub has_next : Bool
  pub has_previous : Bool
  pub links : Option PaginationLinks

pub data SortOrder : Type 0 where
  asc desc : SortOrder

pub record PaginationParams : Type 0 where
  pub page : ℕ
  pub per_page : ℕ
  pub sort_by : Option String
  pub sort_order : Option SortOrder

abbrev pub default_params : PaginationParams
default_params = record { page = 1; per_page = 50; sort_by = none; sort_order = none }

abbrev pub u32_max : ℕ
u32_max = 4294967295

abbrev pub link : (ℕ → String) → String → ℕ → String
link show base_url page = base_url ++ "?page=" ++ show page

-- The addition wraps around; the subtraction is made on pages after the first only.
unfoldable pub new_links : (ℕ → String) → String → ℕ → ℕ → PaginationLinks
new_links show base_url current_page total_pages = record {
  first = base_url ++ "?page=1";
  last = link show base_url total_pages;
  next =
      if ltb current_page total_pages
      then some (link show base_url ((current_page + 1) % 4294967296))
      else none;
  prev = if ltb 1 current_page then some (link show base_url (current_page - 1)) else none;
  self_link = link show base_url current_page;
}

unfoldable pub with_links : (ℕ → String) → String → PaginationMetadata → PaginationMetadata
unfolding new_links
with_links show base_url p = record p {
  links = some (new_links show base_url p.page p.total_pages);
}

module _ (f : FloatOps) where
  unfoldable pub pages_for : ℕ → ℕ → ℕ
  pages_for per_page total_items =
      min (f.to_nat (f.ceil (f.div (f.of_nat total_items) (f.of_nat per_page)))) u32_max

  unfoldable pub new_pagination : ℕ → ℕ → ℕ → PaginationMetadata
  unfolding pages_for
  new_pagination page per_page total_items =
      let total_pages = pages_for per_page total_items in
      record {
        page = page;
        per_page = per_page;
        total_items = total_items;
        total_pages = total_pages;
        has_next = ltb page total_pages;
        has_previous = ltb 1 page;
        links = none;
      }
