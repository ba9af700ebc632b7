-- ===== src/Filter/Tests.antt =====
-- Exceptions and their answers.
use discord_bot_backend.Prelude.{true, false, none, some, ◌≡◌, refl, List, [], ◌∷◌}
use discord_bot_backend.Filter.{
  Item, text, validation, one, many, printed, plain, object, http, error, unknown, catch,
  validation_to_details,
}
use discord_bot_backend.Filter.Details.{detail, last_error, detail-validation_to_details}

abbrev items : List Item
items =
    validation (record {
      property = some "email";
      constraints = some (("isEmail", some "Invalid email") ∷ []);
    })
    ∷ validation (record { property = some "foo"; constraints = none })
    ∷ validation (record {
      property = some "email";
      constraints = some (("maxLength", some "Too long") ∷ []);
    })
    ∷ []

filter : Unit {0}
unfolding catch validation_to_details
filter = tt

answers :
    (catch (http true 400 (object none (many items))) ≡ (
      400,
      record {
        code = "VALIDATION_ERROR";
        message = "Validation failed";
        details = some (("email", "Too long") ∷ ("foo", "Validation failed") ∷ []);
      },
    ))
    × ((catch (http false 400 (object none (many (text "err1" ∷ text "err2" ∷ []))))).1.message
        ≡ "err1; err2")
    × ((catch (http false 403 (plain "Forbidden"))).1.code ≡ "FORBIDDEN")
    × ((catch (http false 418 (plain "Teapot"))).1.code ≡ "INTERNAL_SERVER_ERROR")
    × ((catch (http false 403 (object (some "INVITE_EXPIRED") (one "Expired")))).1.code
        ≡ "INVITE_EXPIRED")
    × ((catch (http false 400 (object none (printed "123")))).1.message ≡ "123")
    × ((catch (error "Unexpected failure")).1.message ≡ "Unexpected failure")
    × ((catch unknown).0 ≡ 500)
unfolding filter
answers = (refl, refl, refl, refl, refl, refl, refl, refl)

detail-validation_to_details_example :
    detail "email" (validation_to_details items []) ≡ last_error "email" items none
detail-validation_to_details_example = detail-validation_to_details "email" items []
