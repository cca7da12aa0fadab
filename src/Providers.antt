-- ===== src/Providers.antt =====
-- providers/registry.c: the table of providers, and which of them a configuration means.
pub mod Detect
use vajra_ai.Prelude.{
  ℕ, ◌+◌, Bool, true, false, ◌&&◌, ◌||◌, Option, none, some, List, [], ◌∷◌, leb, ◌==◌,
  if◌then◌else◌,
}
use vajra_ai.CString.{Bytes, codes, equal_nocase, has_prefix, strstr}

-- `provider_spec_t`; the extra headers end at the first NULL.
pub record ProviderSpec : Type 0 where
  pub name : Bytes
  pub default_url : Option Bytes
  pub detect_key_prefix : Option Bytes
  pub detect_url_keyword : Option Bytes
  pub extra_headers : List Bytes

abbrev pub openrouter : ProviderSpec
openrouter = record {
  name = codes "openrouter";
  default_url = some (codes "https://openrouter.ai/api/v1");
  detect_key_prefix = some (codes "sk-or-");
  detect_url_keyword = some (codes "openrouter");
  extra_headers =
      codes "HTTP-Referer: https://github.com/aham-ai/aham" ∷ codes "X-Title: Aham AI" ∷ [];
}

abbrev pub groq : ProviderSpec
groq = record {
  name = codes "groq";
  default_url = some (codes "https://api.groq.com/openai/v1");
  detect_key_prefix = some (codes "gsk_");
  detect_url_keyword = some (codes "groq");
  extra_headers = [];
}

abbrev pub together : ProviderSpec
together = record {
  name = codes "together";
  default_url = some (codes "https://api.together.xyz/v1");
  detect_key_prefix = none;
  detect_url_keyword = some (codes "together");
  extra_headers = [];
}

abbrev pub openai : ProviderSpec
openai = record {
  name = codes "openai";
  default_url = some (codes "https://api.openai.com/v1");
  detect_key_prefix = some (codes "sk-");
  detect_url_keyword = some (codes "openai");
  extra_headers = [];
}

-- PROVIDERS up to its sentinel.
abbrev pub providers : List ProviderSpec
providers = openrouter ∷ groq ∷ together ∷ openai ∷ []

-- The loop over the table that returns the first entry with a property.
unfoldable pub first_spec : (ProviderSpec → Bool) → List ProviderSpec → Option ProviderSpec
first_spec p [] = none
first_spec p (s ∷ ss) = if p s then some s else first_spec p ss

-- A name that is NULL or empty is no provider's.
unfoldable pub registry_find_by_name : Option Bytes → Option ProviderSpec
unfolding first_spec equal_nocase
registry_find_by_name (some (c ∷ cs)) =
    first_spec (λ (s : ProviderSpec). equal_nocase s.name (c ∷ cs)) providers
registry_find_by_name _ = none

-- The two tests at one entry. A key or a URL that is NULL or empty matches nothing.
unfoldable pub key_matches : Option Bytes → Option Bytes → Bool
unfolding has_prefix
key_matches (some prefix) (some (c ∷ cs)) = has_prefix (c ∷ cs) prefix
key_matches _ _ = false

unfoldable pub url_matches : Option Bytes → Option Bytes → Bool
unfolding strstr
url_matches (some keyword) (some (c ∷ cs)) = elim (strstr (c ∷ cs) keyword) [
  | none ↦ false
  | some _ ↦ true
]
url_matches _ _ = false

abbrev pub detects : Option Bytes → Option Bytes → ProviderSpec → Bool
detects api_key api_url s =
    key_matches s.detect_key_prefix api_key || url_matches s.detect_url_keyword api_url

unfoldable pub registry_detect : Option Bytes → Option Bytes → Option ProviderSpec
unfolding first_spec key_matches url_matches
registry_detect api_key api_url = first_spec (detects api_key api_url) providers

unfoldable pub registry_resolve_url : Option ProviderSpec → Option Bytes → Option Bytes
registry_resolve_url spec (some (c ∷ cs)) = some (c ∷ cs)
registry_resolve_url none _ = none
registry_resolve_url (some s) _ = s.default_url
