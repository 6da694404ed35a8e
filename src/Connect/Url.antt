-- ===== src/Connect/Url.antt =====
-- internal/curlu/client.go: `parseURL`, by what it asks of a URL.
use curlu.Base.{
  ℕ, true, false, Option, none, some, List, [], ◌∷◌, ◌≡◌, ◌≢◌, ◌⊎◌, inl, inr, ◌↔◌, refl, arith,
  Bytes, ok, same, same_iff, Option-cases,
}
use curlu.Number.{parse_uint, max_u16}
use curlu.Options.{Outside}
use curlu.Request.{Url}
use curlu.Connect.Defs.{Parsed, is_empty, is_some, http, https, url_of, checked_url, parse_url}

-- What is asked of a URL, and the target made of it.
pub record IsTarget (x : Outside) (p : Parsed) (t : Url) : Type 0 where
  pub scheme_given : p.scheme ≢ []
  pub host_given : p.host ≢ []
  pub web : (x.lower p.scheme ≡ http) ⊎ (x.lower p.scheme ≡ https)
  pub no_user : p.has_user ≡ false
  pub hostname_given : p.hostname ≢ []
  pub port_number : (p.port ≡ []) ⊎ ((n : ℕ) × (parse_uint 10 max_u16 p.port ≡ some n))
  pub made : t ≡ url_of (x.lower p.scheme) p

given : {A : Type 0} (xs : List A) → (is_empty xs ≡ false) ↔ (xs ≢ [])
given [] = (λ h. absurd (cc h), λ h. absurd (h refl))
given (y ∷ xs) = (λ _. λ h. absurd (cc h), λ _. refl)

not_given : {A : Type 0} (xs : List A) → (is_empty xs ≡ true) ↔ (xs ≡ [])
not_given [] = (λ _. refl, λ _. refl)
not_given (y ∷ xs) = (λ h. absurd (cc h), λ h. absurd (cc h))

there : {A : Type 0} (o : Option A) → (is_some o ≡ true) ↔ ((a : A) × (o ≡ some a))
there none = (λ h. absurd (cc h), λ (a, h). absurd (cc h))
there (some a) = (λ h. (a, refl), λ _. refl)

-- The tests of `parseURL`, apart from one another.
record Passes (x : Outside) (p : Parsed) (t : Url) : Type 0 where
  scheme : is_empty p.scheme ≡ false
  host : is_empty p.host ≡ false
  web : (same (x.lower p.scheme) http ≡ true) ⊎ (same (x.lower p.scheme) https ≡ true)
  user : p.has_user ≡ false
  hostname : is_empty p.hostname ≡ false
  port : (is_empty p.port ≡ true) ⊎ (is_some (parse_uint 10 max_u16 p.port) ≡ true)
  made : t ≡ url_of (x.lower p.scheme) p

checked_url-Passes : (x : Outside) (p : Parsed) {t : Url} → checked_url x p ≡ ok t → Passes x p t
unfolding checked_url
checked_url-Passes x p {t} h = record {
  scheme = ground (arith, h);
  host = ground (arith, h);
  web = ground (arith, h);
  user = ground (arith, h);
  hostname = ground (arith, h);
  port = ground (arith, h);
  made = ground (arith, h);
}

checked_url_passed : (x : Outside) (p : Parsed) {t : Url} → Passes x p t → checked_url x p ≡ ok t
unfolding checked_url
checked_url_passed x p {t} r =
    ground (arith, r.scheme, r.host, r.user, r.hostname, r.web, r.port, r.made)

checked_url_iff : (x : Outside) (p : Parsed) {t : Url} → (checked_url x p ≡ ok t) ↔ IsTarget x p t
checked_url_iff x p {t} = (
  λ h.
      let r = checked_url-Passes x p h in
      record {
        scheme_given = (given p.scheme).0 r.scheme;
        host_given = (given p.host).0 r.host;
        web = elim r.web [
          | inl e ↦ inl ((same_iff (x.lower p.scheme) http).0 e)
          | inr e ↦ inr ((same_iff (x.lower p.scheme) https).0 e)
        ];
        no_user = r.user;
        hostname_given = (given p.hostname).0 r.hostname;
        port_number = elim r.port [
          | inl e ↦ inl ((not_given p.port).0 e)
          | inr e ↦ inr ((there (parse_uint 10 max_u16 p.port)).0 e)
        ];
        made = r.made;
      },
  λ it. checked_url_passed x p (record {
    scheme = (given p.scheme).1 it.scheme_given;
    host = (given p.host).1 it.host_given;
    web = elim it.web [
      | inl e ↦ inl ((same_iff (x.lower p.scheme) http).1 e)
      | inr e ↦ inr ((same_iff (x.lower p.scheme) https).1 e)
    ];
    user = it.no_user;
    hostname = (given p.hostname).1 it.hostname_given;
    port = elim it.port_number [
      | inl e ↦ inl ((not_given p.port).1 e)
      | inr e ↦ inr ((there (parse_uint 10 max_u16 p.port)).1 e)
    ];
    made = it.made;
  }),
)

-- A text with the target that it stands for.
abbrev pub Means : Outside → (Bytes → Option Parsed) → Bytes → Url → Type 0
Means x parse one t = (p : Parsed) × (parse one ≡ some p) × IsTarget x p t

pub parse_url_iff :
    (x : Outside) (parse : Bytes → Option Parsed) (one : Bytes) {t : Url}
    → (parse_url x parse one ≡ ok t) ↔ Means x parse one t
unfolding parse_url
parse_url_iff x parse one {t} = (
  λ h. elim (Option-cases (parse one)) [
    | inl e ↦ absurd (let h' = rw (e, parse_url) at h in cc h')
    | inr (p, e) ↦ (p, e, (checked_url_iff x p).0 (rw (e, parse_url) at h))
  ],
  λ (p, e, it). rw (e, parse_url) ((checked_url_iff x p).1 it),
)
