-- ===== src/Contracts/Auth.antt =====
-- packages/contracts/src/auth.ts: roles, memberships and the authenticated caller.
use rescue.Prelude.{ℕ, ◌≡◌, Bool, List, [], ◌∷◌, Option, String, Coded, ◌===◌, any, arith}

pub data UserRole : Type 0 where
  customer_admin customer_member provider_admin provider_driver dispatcher compliance admin :
      UserRole

abbrev pub user_role_code : UserRole → ℕ
user_role_code UserRole.customer_admin = 0
user_role_code UserRole.customer_member = 1
user_role_code UserRole.provider_admin = 2
user_role_code UserRole.provider_driver = 3
user_role_code UserRole.dispatcher = 4
user_role_code UserRole.compliance = 5
user_role_code UserRole.admin = 6

pub user_role_code-injective : (a b : UserRole) → user_role_code a ≡ user_role_code b → a ≡ b
user_role_code-injective a b h = ground arith

instance abbrev pub user_role_coded : Coded UserRole
user_role_coded = record { code = user_role_code; code-injective = user_role_code-injective }

abbrev pub customer_roles : List UserRole
customer_roles = UserRole.customer_admin ∷ UserRole.customer_member ∷ []

abbrev pub provider_roles : List UserRole
provider_roles = UserRole.provider_admin ∷ UserRole.provider_driver ∷ []

abbrev pub staff_roles : List UserRole
staff_roles = UserRole.dispatcher ∷ UserRole.compliance ∷ UserRole.admin ∷ []

unfoldable pub is_customer_role : UserRole → Bool
is_customer_role role = any (λ r. r === role) customer_roles

unfoldable pub is_provider_role : UserRole → Bool
is_provider_role role = any (λ r. r === role) provider_roles

unfoldable pub is_staff_role : UserRole → Bool
is_staff_role role = any (λ r. r === role) staff_roles

pub record Membership : Type 0 where
  pub id : ℕ
  pub role : UserRole
  pub organization_id : Option ℕ
  pub provider_id : Option ℕ

pub record Principal : Type 0 where
  pub user_id : ℕ
  pub subject : String
  pub email : String
  pub name : String
  pub memberships : List Membership
