-- ===== src/Filter.antt =====
-- libs/shared/src/filters/all-exceptions.filter.ts: from an exception to the answer of the API.
pub mod Details
mod Tests
use Prim.Native.String.{◌++◌ as append}
use discord_bot_backend.Prelude.{
  ℕ, String, Bool, true, false, Option, none, some, ◌==◌, ◌&&◌, ◌||◌, ◌=?◌, is_empty, or_else,
  if◌then◌else◌, List, [], ◌∷◌,
}

-- An object of class-validator; a constraint that is not a text is `none`.
pub record ValidationErrorItem : Type 0 where
  pub property : Option String
  pub constraints : Option (List (String × Option String))

-- What a list of messages holds: texts, validation errors, and others, as `String` prints them.
pub data Item : Type 0 where
  text : String → Item
  validation : ValidationErrorItem → Item
  other : String → Item

-- A `message`: none, a text, a list, or another value, as `String` prints it.
pub data Message : Type 0 where
  absent : Message
  one : String → Message
  many : List Item → Message
  printed : String → Message

-- The response of an `HttpException`; the code of an object is what stands in its own field `code`, if
-- that is a text.
pub data Body : Type 0 where
  plain : String → Body
  object : Option String → Message → Body

-- `http` tells whether the exception is a `BadRequestException`.
pub data Exception : Type 0 where
  http : Bool → ℕ → Body → Exception
  error : String → Exception
  unknown : Exception

abbrev pub DetailList : Type 0
DetailList = List (String × String)

pub record Envelope : Type 0 where
  pub code : String
  pub message : String
  pub details : Option DetailList

abbrev pub is_validation : Item → Bool
is_validation (text s) = false
is_validation (validation e) = true
is_validation (other s) = false

abbrev pub all_validation : List Item → Bool
all_validation [] = true
all_validation (m ∷ items) = is_validation m && all_validation items

abbrev pub is_validation_message : Message → Bool
is_validation_message absent = false
is_validation_message (one s) = false
is_validation_message (many []) = false
is_validation_message (many (m ∷ items)) = all_validation (m ∷ items)
is_validation_message (printed s) = false

-- `details[key] = value`
abbrev pub put : String → String → DetailList → DetailList
put key value [] = (key, value) ∷ []
put key value ((k, v) ∷ details) =
    let rest = put key value details in if k == key then (k, value) ∷ details else (k, v) ∷ rest

-- The first constraint's text.
abbrev pub first_constraint : Option (List (String × Option String)) → String
first_constraint none = "Validation failed"
first_constraint (some []) = "Validation failed"
first_constraint (some ((name, value) ∷ more)) = or_else value "Validation failed"

unfoldable pub validation_to_details : List Item → DetailList → DetailList
validation_to_details [] details = details
validation_to_details (validation e ∷ items) details =
    validation_to_details items
      (put (or_else e.property "unknown") (first_constraint e.constraints) details)
validation_to_details (text s ∷ items) details = validation_to_details items details
validation_to_details (other s ∷ items) details = validation_to_details items details

abbrev pub pick_code_by_status : ℕ → String
pick_code_by_status status =
    if status =? 401
    then "UNAUTHORIZED"
    else if status =? 403
    then "FORBIDDEN"
    else if status =? 404
    then "NOT_FOUND"
    else if status =? 400
    then "VALIDATION_ERROR"
    else if status =? 429
    then "RATE_LIMIT_EXCEEDED"
    else "INTERNAL_SERVER_ERROR"

abbrev pub code_of : Body → Option String
code_of (plain s) = none
code_of (object code message) = code

abbrev pub message_of : Body → Message
message_of (plain s) = one s
message_of (object code message) = message

abbrev pub custom_code : ℕ → Option String → String
custom_code status none = pick_code_by_status status
custom_code status (some code) = if is_empty code then pick_code_by_status status else code

abbrev pub print_item : Item → String
print_item (text s) = s
print_item (validation e) = "[object Object]"
print_item (other s) = s

abbrev pub join_items : List Item → String
join_items [] = ""
join_items (m ∷ []) = print_item m
join_items (m ∷ n ∷ items) = append (print_item m) (append "; " (join_items (n ∷ items)))

abbrev pub print_message : Message → String
print_message absent = "Internal server error"
print_message (one s) = s
print_message (many items) = join_items items
print_message (printed s) = s

abbrev pub items_of : Message → List Item
items_of absent = []
items_of (one s) = []
items_of (many items) = items
items_of (printed s) = []

-- `details`, where there are any.
abbrev pub some_details : DetailList → Option DetailList
some_details [] = none
some_details (d ∷ details) = some (d ∷ details)

-- The status and the envelope of the answer.
unfoldable pub catch : Exception → ℕ × Envelope
unfolding validation_to_details
catch unknown = (
  500,
  record { code = "INTERNAL_SERVER_ERROR"; message = "Internal server error"; details = none },
)
catch (error message) = (
  500,
  record {
    code = "INTERNAL_SERVER_ERROR";
    message = if is_empty message then "Internal server error" else message;
    details = none;
  },
)
catch (http bad_request status body) =
    let message = message_of body in
    (
      status,
      if (bad_request || status =? 400) && is_validation_message message
          then record {
            code = "VALIDATION_ERROR";
            message = "Validation failed";
            details = some_details (validation_to_details (items_of message) []);
          }
          else record {
            code = custom_code status (code_of body);
            message = print_message message;
            details = none;
          },
    )

-- `new NotFoundException()`
abbrev pub not_found_exception : Exception
not_found_exception = http false 404 (object none (one "Not Found"))

-- A method that returns or throws.
pub data Reply {ℓ} (A : Type ℓ) : Type ℓ where
  returned : A → Reply A
  raised : Exception → Reply A
