-- ===== src/Web/Tests/Tables.antt =====
-- The tags of the tables, at one key.
use koko.Base.{◌≡◌, [], ◌∷◌, none, some, map, refl}
use koko.Go.Text.{bytes}
use koko.Go.Tags.{lookup}
use koko.Web.Model.Tables.{user_fields, article_fields, json_name, column_tag}

-- A tag as Go documents it has its values.
documented :
    lookup (bytes "json") (bytes "species:\"gopher\" json:\"colour\"") ≡ some (bytes "colour")
unfolding lookup
documented = refl

-- A space stands where the lookup wants a quote: neither key is found.
user_columns : map column_tag user_fields ≡ none ∷ none ∷ none ∷ none ∷ []
unfolding column_tag
user_columns = refl

user_names :
    map json_name user_fields
    ≡ bytes "Username" ∷ bytes "Password" ∷ bytes "Address" ∷ bytes "Phone" ∷ []
unfolding json_name
user_names = refl

-- The pair for the column stands first here, and is found.
article_columns :
    map column_tag article_fields
    ≡ none
      ∷ some (bytes "type: varchar(100);not null")
      ∷ some (bytes "type: int;not null")
      ∷ some (bytes "type: varchar(200)")
      ∷ some (bytes "type: longtext")
      ∷ some (bytes "type: varchar(300)")
      ∷ []
unfolding column_tag
article_columns = refl
