-- ===== src/Api/Http.antt =====
-- What a function of frontend/src/api gives to axios. A field that is undefined is left out, as axios
-- and JSON do; a number that may have a fraction stands as its print.
use revlm.Base.{String, ℕ, ℤ, Bool, Option, none, some, List, [], ◌∷◌, Text, codes}

pub data Method : Type 0 where
  get : Method
  post : Method
  put : Method
  delete : Method

pub data Field : Type 0 where
  chars : Text → Field
  number : ℕ → Field
  integer : ℤ → Field
  decimal : Text → Field
  flag : Bool → Field
  null : Field

pub data Body : Type 0 where
  no_body : Body
  fields : List (Text × Field) → Body
  numbers : List ℕ → Body

pub record Request : Type 0 where
  pub method : Method
  pub url : Text
  pub params : List (Text × Field)
  pub body : Body

abbrev pub given : String → Option Field → List (Text × Field)
given name none = []
given name (some f) = (codes name, f) ∷ []

abbrev pub call : Method → Text → Body → Request
call m url body = record { method = m; url = url; params = []; body = body }

abbrev pub bare : Method → Text → Request
bare m url = call m url no_body
