-- ===== src/Database/Keys.antt =====
-- SQLiteIdempotencyStore of yasinpress/database/sqlite.py and of publishing/sqlite_state.py, and the
-- in-memory IdempotencyStore of publishing/idempotency.py: a set of keys.
use yasin_press_rewrite.Base.{
  String, Bool, true, false, List, string_eq, contains, add, if◌then◌else◌,
}

unfoldable pub seen : String → List String → Bool
seen key keys = contains key keys

-- `INSERT OR IGNORE`, and `set.add`
unfoldable pub mark : String → List String → List String
mark key keys = add key keys

-- claim: whether the key is new.
unfoldable pub claim : String → List String → List String × Bool
claim key keys = if contains key keys then (keys, false) else (add key keys, true)
