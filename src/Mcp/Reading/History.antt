-- ===== src/Mcp/Reading/History.antt =====
-- internal/mcp/server.go, internal/events/events.go: what list_history answers.
use mathlib.Core.Path.{subst}
use hermes_security_skills.Base.{
  >>=-eq-ok, All, All-map, List, guard-eq-ok, length, map_err-eq-ok, none, ok, ok-injective, ◌≡◌,
}
use hermes_security_skills.Base.Int.{pos, ℤ, ◌≤ℤ◌}
use hermes_security_skills.Base.Text.{Text, is_blank}
use hermes_security_skills.Document.{Fields}
use hermes_security_skills.Events.{
  EventCodec, EventEntry, build_index, fingerprint, list_events_of, read_cache, read_files,
}
use hermes_security_skills.Events.Filter.{IsWanted, passes-IsWanted}
use hermes_security_skills.Events.Index.{IsIndex, IsVerified, build_index-IsIndex}
use hermes_security_skills.Events.Listing.{
  IsAscending, IsListed, list_events_of-All, list_events_of-IsAscending,
}
use hermes_security_skills.Mcp.{Server, invalid_params}
use hermes_security_skills.Mcp.Reading.{
  EvidenceDir, call_list_history, filter_of, history, limit_arg, open_events,
}

-- An answer of list_history on these files: of an index of all files, the last entries that pass the
-- filter of the arguments, as many as the limit. So they are verified, ascend, and are wanted, and
-- where older ones that pass are left out, they are as many as the limit.
pub record IsHistory (k : EventCodec) (files : List (Text × Text)) (args : Fields)
    (out : List EventEntry) : Type 0 where
  pub limit : ℤ
  pub limit_read : limit_arg args ≡ ok limit
  pub verified : All (IsVerified k files) out
  pub ascending : IsAscending out
  pub wanted : All (IsWanted (filter_of limit args)) out
  pub limited : pos 1 ≤ℤ limit → pos (length out) ≤ℤ limit
  pub index : List EventEntry
  pub indexed : IsIndex k files index
  pub shown : IsListed index (filter_of limit args) out

history-injective : {es fs : List EventEntry} → history es ≡ history fs → es ≡ fs
history-injective same = cc

-- Where the cache is not that of the directory, list_history answers only with entries of files whose
-- digest was verified, in ascending order; all fit the filter that the arguments give, and they are no
-- more than a positive limit. They are the last that fit in an index with an entry for each file, and
-- where older ones are left out, they are as many as the limit.
pub call_list_history-IsHistory :
    (s : Server) (d : EvidenceDir) (args : Fields) (files : List (Text × Text))
    (out : List EventEntry)
    → read_files d.evidence_files ≡ ok files
    → read_cache d.codec d.cache (fingerprint d.codec files) ≡ none
    → call_list_history s d args ≡ ok (history out)
    → IsHistory d.codec files args out
unfolding call_list_history open_events
call_list_history-IsHistory s d args files out reads stale h =
    let (entries, opened, h1) = >>=-eq-ok (open_events s d) _ h in
    let (limit, limit_read, h2) = >>=-eq-ok (limit_arg args) _ h1 in
    let (_, built) = guard-eq-ok (is_blank s.evidence_dir) invalid_params _ opened in
    let index = build_index d.codec d.cache_writable d.evidence_files d.cache in
    let made = map_err-eq-ok _ index.0 entries built in
    let i =
      build_index-IsIndex d.codec d.cache_writable d.evidence_files d.cache files entries reads
        stale made in
    let f = filter_of limit args in
    let (listed, ascending, passing) = list_events_of-IsAscending entries f i.ascending in
    let same : list_events_of entries f ≡ out = history-injective (ok-injective h2) in
    subst (IsHistory d.codec files args) same (record {
      limit = limit;
      limit_read = limit_read;
      verified = list_events_of-All (IsVerified d.codec files) entries f i.verified;
      ascending = ascending;
      wanted = All-map _ (IsWanted f) (passes-IsWanted f) (list_events_of entries f) passing;
      limited = listed.limited;
      index = entries;
      indexed = i;
      shown = listed;
    })
