-- ===== src/Scheduling/FileTests.antt =====
-- A job file whose times are counted in strokes, and whose content is the list of its objects.
use yasin_press_rewrite.Base.{contains, ◌≡◌, refl, List, [], ◌∷◌, none, some, string_eq}
use yasin_press_rewrite.Samples.{strokes, counted, counted-strokes, strokes_given}
use yasin_press_rewrite.Scheduling.Jobs.{pending, Job}
use yasin_press_rewrite.Scheduling.Persistence.{JobEntry, Format, save_json, load_json}
use yasin_press_rewrite.Scheduling.RoundTrip.{IsFormat, IsFiled, load_json-save_json}

abbrev plain : Format (List JobEntry)
plain = record { iso = strokes; from_iso = counted; dumps = λ es. es; loads = λ es. some es }

plain-IsFormat : IsFormat plain
plain-IsFormat = record {
  iso_back = counted-strokes;
  iso_given = strokes_given;
  json_back = λ es. refl;
}

abbrev job : Job
job = record {
  id = "1";
  name = "feed-fetch";
  status = pending;
  attempts = 0;
  created_at = 3;
  started_at = some 5;
  finished_at = none;
  error = none;
}

abbrev other_job : Job
other_job = record job { id = "2" }

load_json-save_json_example :
    IsFiled (save_json plain job (("2", other_job) ∷ [])).0
    × (load_json plain (some (save_json plain job (("2", other_job) ∷ [])).1)
        ≡ some (save_json plain job (("2", other_job) ∷ [])).0)
unfolding contains
load_json-save_json_example =
    load_json-save_json plain plain-IsFormat job (("2", other_job) ∷ []) (refl, refl, tt)
