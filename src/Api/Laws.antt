-- ===== src/Api/Laws.antt =====
-- The errors and the token of internal/apiclient/api_client.go and sideeyeclient/client.go.
use Prim.Native.String.{String}
use side_eye_go.Prelude.{◌≡◌, refl, ap, Option, none, List, [], ◌∷◌, ◌++◌}
use side_eye_go.Api.{
  Outside, new_api_client, SideEyeClientOption, with_api_token_from_env, env_tenant_token, apply,
  apply_all, new_side_eye_client,
}

apply_from_env :
    (lookup_env : String → Option String) (token : String)
    → lookup_env env_tenant_token ≡ none
    → (apply lookup_env with_api_token_from_env token).1 ≡ token
unfolding apply
apply_from_env lookup_env token h = rw (h, apply) refl

skip_from_env :
    (lookup_env : String → Option String) (before after : List SideEyeClientOption) (token : String)
    → lookup_env env_tenant_token ≡ none
    → apply_all lookup_env (before ++ with_api_token_from_env ∷ after) token
      ≡ apply_all lookup_env (before ++ after) token
unfolding apply_all apply
skip_from_env lookup_env [] after token h =
    ap (λ t. apply_all lookup_env after t) (apply_from_env lookup_env token h)
skip_from_env lookup_env (opt ∷ before) after token h =
    skip_from_env lookup_env before after (apply lookup_env opt token).1 h

-- Where the variable SIDE_EYE_TOKEN is not set, the option WithApiTokenFromEnv, among any others, has
-- no effect: the client is made as if it was left out, and its error is lost.
pub from_env_ignored :
    (o : Outside) (before after : List SideEyeClientOption)
    → o.lookup_env env_tenant_token ≡ none
    → new_side_eye_client o (before ++ with_api_token_from_env ∷ after)
      ≡ new_side_eye_client o (before ++ after)
unfolding new_side_eye_client
from_env_ignored o before after h =
    ap (λ t. new_api_client o t) (skip_from_env o.lookup_env before after "" h)
