-- ===== src/Policy/Customers.antt =====
-- policy-service/apps/policies/views.py, CustomerViewSet, with CustomerSerializer of serializers.py:
-- how customers are created. The table that the validators look at may be older than the one that
-- the row goes into.
use risk_core.Prelude.{
  Bool, ◌||◌, none, List, [], ◌∷◌, ◌++◌, Text, text_eq, any, ◌==◌, if◌then◌else◌,
}
use risk_core.Json.{Json, Fields}
use risk_core.Runtime.{Runtime, Draw}
use risk_core.Action.{Result, ok, err}
use risk_core.Policy.{Customer}
use risk_core.Http.{Invalid}
use risk_core.Policy.Serializers.{validate_email, validate_dni}

-- The validated fields of a request.
pub record CustomerData : Type 0 where
  pub full_name : Text
  pub email : Text
  pub dni : Text
  pub phone : Text
  pub address : Text

-- What a creation can end in but a customer: the errors of the validators, or an IntegrityError.
pub data Rejection : Type 0 where
  invalid : List Invalid → Rejection
  integrity_error : Rejection

abbrev error_of : Result Invalid Text → List Invalid
error_of (ok _) = []
error_of (err e) = e ∷ []

-- The errors of a serializer are those of all fields.
unfoldable pub customer_errors : List Customer → CustomerData → List Invalid
unfolding validate_email validate_dni
customer_errors seen d =
    error_of (validate_email none seen d.email) ++ error_of (validate_dni none seen d.dni)

abbrev pub new_customer : Draw → CustomerData → Customer
new_customer draw d = record {
  id = draw.uuid 0;
  full_name = d.full_name;
  email = d.email;
  dni = d.dni;
  phone = d.phone;
  address = d.address;
  created_at = draw.now;
  updated_at = draw.now;
}

-- Two rows that the database does not hold at once: a primary key and two unique columns.
abbrev pub clash : Customer → Customer → Bool
clash c d = c.id == d.id || (text_eq c.email d.email || text_eq c.dni d.dni)

abbrev pub insert_customer : Customer → List Customer → Result Rejection Customer × List Customer
insert_customer c rows =
    if any (clash c) rows then (err integrity_error, rows) else (ok c, rows ++ c ∷ [])

abbrev pub save :
    Draw → CustomerData → List Customer → List Invalid → Result Rejection Customer × List Customer
save draw d rows [] = insert_customer (new_customer draw d) rows
save draw d rows (e ∷ errors) = (err (invalid (e ∷ errors)), rows)

-- `create` of CreateModelMixin, on the validators' table and the one of the insert.
unfoldable pub create_customer :
    Draw → CustomerData → List Customer → List Customer → Result Rejection Customer × List Customer
unfolding customer_errors
create_customer draw d seen rows = save draw d rows (customer_errors seen d)

-- `CustomerSerializer(customer).data`
unfoldable pub customer_data : Runtime → Customer → Json
customer_data rt c = Json.obj (
    Fields.field "id" (Json.str (rt.uuid_str c.id)) (
      Fields.field "full_name" (Json.str c.full_name) (
        Fields.field "email" (Json.str c.email) (
          Fields.field "dni" (Json.str c.dni) (
            Fields.field "phone" (Json.str c.phone) (
              Fields.field "address" (Json.str c.address) (
                Fields.field "created_at" (Json.str (rt.datetime_iso c.created_at)) (
                  Fields.field "updated_at" (Json.str (rt.datetime_iso c.updated_at))
                    Fields.end))))))))

-- Creations one after the other.
unfoldable pub create_all :
    List (Draw × CustomerData × List Customer) → List Customer → List Customer
unfolding create_customer
create_all [] rows = rows
create_all ((draw, d, seen) ∷ rest) rows = create_all rest (create_customer draw d seen rows).1
