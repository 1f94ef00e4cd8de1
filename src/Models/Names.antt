-- ===== src/Models/Names.antt =====
-- The keys that queue and delivery state are filed under: f-strings of an article's id, a
-- destination and a version. `iso` stands for `datetime.isoformat`.
use Prim.Native.String.{◌++◌}
use yasin_press_rewrite.Base.{ℕ, String, Option, none, some}

-- f"{article_id}:{destination}", the id of a job
unfoldable pub job_id : String → String → String
job_id article destination = article ++ (":" ++ destination)

-- f"{article.id}:{publisher.name}", the key of a delivery of any version
unfoldable pub delivery_key : String → String → String
delivery_key article destination = article ++ (":" ++ destination)

-- `timestamp.isoformat() if timestamp is not None else "unknown"`
unfoldable pub version_of : (ℕ → String) → Option ℕ → String
version_of iso none = "unknown"
version_of iso (some t) = iso t

-- f"{article.id}:{publisher.name}:{version}"
unfoldable pub version_key : (ℕ → String) → String → String → Option ℕ → String
unfolding version_of
version_key iso article destination t =
    article ++ (":" ++ (destination ++ (":" ++ version_of iso t)))
