-- ===== src/Examples/Registry.antt =====
-- The theorems on the registry of services, tried on the shop.
use digital_services_platfor.Base.{
  ◌≡◌, refl, true, false, none, some, find, update_where, ℕ_discrete,
}
use digital_services_platfor.Int.{pos}
use digital_services_platfor.Text.{Text, Text-discrete, text, strip, drop_spaces, is_space}
use digital_services_platfor.Exec.{Raised}
use digital_services_platfor.Services.{
  ServiceUpdate, service_row_of, update_service, validate_update, locked_update, change_service,
  write_service, new_values,
}
use digital_services_platfor.Schema.{CategoryRow}
use digital_services_platfor.Services.Changes.{update_service_stale}
use digital_services_platfor.Examples.{merge, shop}

abbrev reason : Text
reason = text "a better price"

-- A new price.
abbrev repriced : ServiceUpdate
repriced = record {
  name_ar = none;
  description_ar = none;
  base_price_halalas = some (pos 700);
  base_price_stars = none;
  enabled = none;
}

abbrev pdf_category : CategoryRow
pdf_category = record { id = 5; slug = text "pdf"; name_ar = text "pdf"; enabled = true }

update_service_stale_example :
    let db = (update_service 6 2 1 reason repriced false false shop).1 in
    let (r, db') = update_service 6 3 1 reason repriced false false db in Raised r × (db' ≡ db)
unfolding update_service validate_update locked_update change_service write_service service_row_of
    find update_where strip drop_spaces is_space Text-discrete ℕ_discrete
update_service_stale_example =
    update_service_stale 6 2 3 1 reason reason repriced repriced false false false false merge
      pdf_category (record { revision = 2; values = new_values merge repriced }) shop
      (update_service 6 2 1 reason repriced false false shop).1 refl refl refl refl
