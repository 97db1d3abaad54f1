-- ===== src/Web/Model/Tables.antt =====
-- The structs that the migration makes tables of (go-web/model/User.go, Article.go, Category.go,
-- ReturnMessage.go): their fields and tags, and what reflection finds in the tags.
use koko.Base.{List, [], ◌∷◌, Option, none, some}
use koko.Go.Text.{Text, bytes}
use koko.Go.Tags.{lookup}

-- A field behind the embedded gorm.Model: its name, its type and its tag.
pub data GoType : Type 0 where
  string_type int_type category_type : GoType

pub record Field : Type 0 where
  pub name : Text
  pub go_type : GoType
  pub tag : Text

abbrev pub string_field : Text → Text → Field
string_field name tag = record { name = name; go_type = string_type; tag = tag }

abbrev pub user_fields : List Field
user_fields =
    string_field (bytes "Username")
      (bytes "gorm: \"type: varchar(20); not null\" json:\"username\"")
    ∷ string_field (bytes "Password")
        (bytes "gorm: \"type: varchar(20); not null\" json:\"password\"")
    ∷ string_field (bytes "Address")
        (bytes "gorm: \"type: varchar(40); not null\" json:\"address\"")
    ∷ string_field (bytes "Phone") (bytes "gorm: \"type: varchar(20); not null\" json:\"phone\"")
    ∷ []

abbrev pub message_fields : List Field
message_fields =
    string_field (bytes "RequestID")
      (bytes "gorm: \"type: varchar(50); not null\" json:\"requestid\"")
    ∷ string_field (bytes "Message")
        (bytes "gorm: \"type: varchar(100); not null\" json:\"message\"")
    ∷ string_field (bytes "BizID") (bytes "gorm: \"type: varchar(30); not null\" json:\"bizid\"")
    ∷ string_field (bytes "Code") (bytes "gorm: \"type: varchar(4); not null\" json:\"code\"")
    ∷ string_field (bytes "Phone") (bytes "gorm: \"type: varchar(11); not null\" json:\"phone\"")
    ∷ []

abbrev pub category_fields : List Field
category_fields =
    string_field (bytes "CName") (bytes "gorm: \"type: varchar(20); not null\" json: \"cname\"")
    ∷ []

abbrev pub article_fields : List Field
article_fields =
    record { name = bytes "Category"; go_type = category_type; tag = [] }
    ∷ string_field (bytes "Title") (bytes "gorm:\"type: varchar(100);not null\" json: \"title\"")
    ∷ record {
      name = bytes "Cid";
      go_type = int_type;
      tag = bytes "gorm:\"type: int;not null\" json:\"cid\"";
    }
    ∷ string_field (bytes "Desc") (bytes "gorm:\"type: varchar(200)\" json:\"desc\"")
    ∷ string_field (bytes "Content") (bytes "gorm:\"type: longtext\" json:\"content\"")
    ∷ string_field (bytes "Img") (bytes "gorm:\"type: varchar(300)\" json:\"img\"")
    ∷ []

-- The name of a field in JSON: that of its tag, else its own.
abbrev pub name_or {ℓ} : {A : Type ℓ} → A → Option A → A
name_or own none = own
name_or own (some t) = t

unfoldable pub json_name : Field → Text
unfolding lookup
json_name f = name_or f.name (lookup (bytes "json") f.tag)

-- What gorm is told of the column.
unfoldable pub column_tag : Field → Option Text
unfolding lookup
column_tag f = lookup (bytes "gorm") f.tag
