-- ===== src/Support/Cache.antt =====
-- CacheStorage, CacheManager and cleanup_expired, at the clock reading `now`.
use yasin_press_rewrite.Base.{
  ℕ, ◌+◌, String, Bool, not, Option, none, some, ltb, leb, ◌==◌, string_eq, nat_eq, if◌then◌else◌,
  Dict, lookup, put, select, length,
}
use yasin_press_rewrite.Models.{Instant}

pub record CacheEntry : Type 0 where
  pub value : String
  pub expires_at : Instant

abbrev pub Entries : Type 0
Entries = Dict String CacheEntry

unfoldable pub set : Instant → String → String → ℕ → Entries → Entries
set now key value ttl entries = put key (record { value = value; expires_at = now + ttl }) entries

unfoldable pub alive : Instant → CacheEntry → Option String
alive now e = if ltb now e.expires_at then some e.value else none

unfoldable pub cached : Instant → String → Entries → Option String
unfolding alive
cached now key entries = elim (lookup key entries) [ none ↦ none | some e ↦ alive now e ]

-- `ttl or self.default_ttl`
unfoldable pub span : ℕ → Option ℕ → ℕ
span default_ttl none = default_ttl
span default_ttl (some ttl) = if ttl == 0 then default_ttl else ttl

-- remember: the value, whether `factory` is called, and the entries after.
unfoldable pub remember : Instant → ℕ → String → String → Option ℕ → Entries → String × Entries
unfolding cached set span
remember now default_ttl key made ttl entries = elim (cached now key entries) [
  | some value ↦ (value, entries)
  | none ↦ (made, set now key made (span default_ttl ttl) entries)
]

unfoldable pub is_expired : Instant → String × CacheEntry → Bool
is_expired now e = leb e.1.expires_at now

-- cleanup_expired: the number of removed entries, and the entries after.
unfoldable pub cleanup_expired : Instant → Entries → ℕ × Entries
unfolding is_expired
cleanup_expired now entries =
    (length (select (is_expired now) entries), select (λ e. not (is_expired now e)) entries)
