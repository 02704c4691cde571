-- ===== src/Users/Tests.antt =====
-- A token that is three numbers in unary, and the theorems at concrete users.
use ops_monitor.Common.Table
use ops_monitor.Users.Creation.{Creation, create_user-Creation}
use ops_monitor.Common.{ap, inl, inr}
use ops_monitor.Common.Action.{ok, err}
use ops_monitor.Exceptions.{integrity_error}
use ops_monitor.Users.Access.{login-Admits}
use ops_monitor.Users.Guard.{require_roles-IsAllowed}
use ops_monitor.Users.Login.{get_current_user, require_roles}
use ops_monitor.Users.Names.{create_user-deleted_name}
use ops_monitor.Users.Service.{create_user}
use ops_monitor.Users.Model.{user_entity}
use ops_monitor.Users.Repository.{distinct_ids}
use ops_monitor.Users.Roles.{get_role_ids-set_roles}
use ops_monitor.Users.Repository.{
  get_role_ids, get_by_username, get_roles_by_user, set_roles, get_by_email,
}
use ops_monitor.Users.Model.{SysUser, SysRole, UserCreate}
use ops_monitor.Users.Login.{TokenSettings, LoginRequest}
use ops_monitor.Users.Session.{Secrets, IsJwt, Session}
use Prim.Native.Char.{code}
use ops_monitor.Common.{
  dedup, ℕ, List, String, ◌∷◌, [], ◌≡◌, Option, suc, if◌then◌else◌, some, none, zero, refl, ◌==◌,
  str_eq, false, true, arith, ◌/◌, ◌&&◌, leb, ltb, inr, inl,
}

-- Numbers in unary, each ended by a `b`.
abbrev unary : ℕ → String → String
unary zero s = String.◌∷◌ "b" s
unary (suc n) s = String.◌∷◌ "a" (unary n s)

abbrev bump : List ℕ → List ℕ
bump [] = []
bump (n ∷ ns) = suc n ∷ ns

abbrev read : String → List ℕ
read String.[] = []
read (String.◌∷◌ c s) = let rest = read s in if code c == b'b' then 0 ∷ rest else bump rest

read-unary : (n : ℕ) (s : String) → read (unary n s) ≡ n ∷ read s
read-unary zero s = refl
read-unary (suc n) s = rw (read-unary n s) refl

abbrev token_of : ℕ → ℕ → ℕ → String
token_of sub iat exp = unary sub (unary iat (unary exp ""))

-- The subject of the numbers of a token, which are in seconds, at a time.
abbrev subject_at : ℕ → List ℕ → Option ℕ
subject_at now (sub ∷ iat ∷ exp ∷ _) =
    if leb iat (now / 1000000) && ltb (now / 1000000) exp then some sub else none
subject_at now _ = none

read-token_of : (sub iat exp : ℕ) → read (token_of sub iat exp) ≡ sub ∷ iat ∷ exp ∷ []
read-token_of sub iat exp =
    rw (read-unary sub (unary iat (unary exp "")), read-unary iat (unary exp ""), read-unary exp "")
      refl

abbrev plain : Secrets
plain = record {
  hash = λ password salt. password;
  verify = λ password hashed. str_eq password hashed;
  encode = λ sub iat exp. token_of sub (iat / 1000000) (exp / 1000000);
  decode = λ token now. subject_at now (read token);
}

plain-IsJwt : IsJwt plain
plain-IsJwt = record {
  decoded = λ sub iat exp now f g.
      let a : leb (iat / 1000000) (now / 1000000) ≡ true = ground arith in
      let b : ltb (now / 1000000) (exp / 1000000) ≡ true = ground arith in
      rw (read-token_of sub (iat / 1000000) (exp / 1000000), a, b) refl;
  expired = λ sub iat exp now f.
      let b : ltb (now / 1000000) (exp / 1000000) ≡ false = ground arith in
      rw (read-token_of sub (iat / 1000000) (exp / 1000000), b) (ground arith);
}

abbrev hour : TokenSettings
hour = record { jwt_expire_minutes = 60 }

abbrev alice : SysUser
alice = record {
  id = 1;
  username = "alice";
  password_hash = "secret";
  nickname = none;
  email = some "alice@example.com";
  phone = none;
  status = 1;
  last_login_at = none;
  last_login_ip = none;
  deleted_at = none;
}

abbrev bob : SysUser
bob = record alice { id = 2; username = "bob"; email = none; deleted_at = some 3 }

abbrev admin : SysRole
admin = record { id = 1; role_code = "ADMIN"; role_name = "admin"; description = none; status = 1 }

abbrev in_use : Session
in_use = record {
  users = record { rows = alice ∷ bob ∷ []; next_id = 3 };
  roles = record { rows = admin ∷ []; next_id = 2 };
  user_roles = record { user_id = 1; role_id = 1 } ∷ [];
  login_logs = record { rows = []; next_id = 1 };
  clock = λ n. n;
  salts = λ n. n;
}

abbrev request : LoginRequest
request = record {
  username = "alice";
  password = "secret";
  ip = none;
  user_agent = none;
  request_id = none;
}

abbrev create_bob : UserCreate
create_bob = record {
  username = "bob";
  password = "secret";
  nickname = none;
  email = none;
  phone = none;
  role_ids = 1 ∷ [];
}

get_role_ids-set_roles_example :
    get_role_ids 1 (set_roles 1 (4 ∷ 5 ∷ 4 ∷ []) in_use.user_roles) ≡ distinct_ids (4 ∷ 5 ∷ 4 ∷ [])
get_role_ids-set_roles_example = get_role_ids-set_roles 1 1 (4 ∷ 5 ∷ 4 ∷ []) in_use.user_roles

create_user-deleted_name_example : create_user plain create_bob in_use ≡ err integrity_error
unfolding get_by_username get_by_email Table.get_by Table.get dedup
create_user-deleted_name_example =
    create_user-deleted_name plain create_bob in_use bob (inr (inl refl)) refl
      (record {
        below = (omega arith, (omega arith, tt));
        distinct = ((omega arith, tt), (tt, tt));
      })
      refl refl refl

-- Alice's token lets her in an hour less a second later.
login-Admits_example :
    get_current_user plain hour (token_of 1 0 3600) (record in_use { clock = λ n. 3599000000 })
    ≡ ok (alice, record in_use { clock = λ n. 3599000000 })
unfolding get_by_username Table.get_by Table.get
login-Admits_example =
    ((((login-Admits plain hour plain-IsJwt request in_use).1 alice refl).2 refl refl refl).2
        (record in_use { clock = λ n. 3599000000 })).admitted
      alice (omega arith) (omega arith) refl refl

require_roles-IsAllowed_example :
    require_roles plain hour ("ADMIN" ∷ []) (token_of 1 0 3600) in_use
    ≡ ok (alice, record in_use { clock = λ n. suc n })
unfolding get_roles_by_user Table.get
require_roles-IsAllowed_example =
    (require_roles-IsAllowed plain hour ("ADMIN" ∷ []) (token_of 1 0 3600) in_use).1 alice "ADMIN"
      refl refl refl (inl refl) (inl refl)

abbrev new_session : Session
new_session = record in_use { users = record { rows = []; next_id = 1 } }

-- Alice alone.
abbrev alice_only : Session
alice_only = record in_use { users = record { rows = alice ∷ []; next_id = 3 } }

create_user-Creation_example :
    Creation plain create_bob alice_only (create_user plain create_bob alice_only)
create_user-Creation_example =
    create_user-Creation plain create_bob alice_only
      (λ u h. elim h [ inl q ↦ ap (λ (w : SysUser). w.deleted_at) q | inr k ↦ absurd k ]) (λ q. cc)
