-- ===== src/Store/Contents.antt =====
-- infrastructure/db/repositories/content.repo.ts: the reads that scheduling makes, and the upkeep
-- of `unusedSince` that the schedule and playlist repositories share.
use wildfire.Base.{
  String, ◌==◌, Bool, ◌&&◌, ◌||◌, Option, none, some, List, map, any, find, filter, opt_eq, or_else,
  includes, if◌then◌else◌,
}
use wildfire.Store.{Store, ContentRecord}

unfoldable pub find_content : String → Store → Option ContentRecord
find_content id st = find (λ c. c.id == id) st.contents

unfoldable pub find_content_for_owner : String → String → Store → Option ContentRecord
find_content_for_owner id owner st = find (λ c. c.id == id && c.owner_id == owner) st.contents

unfoldable pub find_contents : List String → Store → List ContentRecord
find_contents ids st = filter (λ c. includes ids c.id) st.contents

unfoldable pub find_contents_for_owner : List String → String → Store → List ContentRecord
find_contents_for_owner ids owner st =
    filter (λ c. includes ids c.id && c.owner_id == owner) st.contents

-- `contentReferenceExists`
unfoldable pub content_referenced : Store → String → Bool
content_referenced st id =
    any (λ i. i.content_id == id) st.playlist_items
    || any (λ s. opt_eq s.content_id (some id)) st.schedules
    || any (λ c. opt_eq c (some id)) st.emergency_slots

unfoldable pub mark_content_used : List String → String → Store → Store
mark_content_used ids at st = record st {
  contents =
      map (λ c. if includes ids c.id then record c { unused_since = none; updated_at = at } else c)
        st.contents;
}

-- The two updates: what is referenced is in use, what is not is unused from `at` on.
unfoldable pub refresh_content_unused_since : List String → String → Store → Store
refresh_content_unused_since ids at st = record st {
  contents =
      map
        (λ c.
          if includes ids c.id
          then if content_referenced st c.id
            then record c { unused_since = none }
            else record c { unused_since = some (or_else c.unused_since at) }
          else c)
        st.contents;
}
