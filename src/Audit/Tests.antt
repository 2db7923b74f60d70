-- ===== src/Audit/Tests.antt =====
-- The theorems on the audit log at a concrete one, of two entries. The hash is the content itself,
-- each text behind its length, and a line is looked up in a table.
use mathlib.Core.Path.{ap₂, subst}
use mathlib.Core.Option.{some-injective}
use hermes_security_skills.Base.{
  List, [], ap, arith, err, if◌then◌else◌, inr, length, none, ok, refl, some, sym, ℕ, ◌++◌, ◌∙◌,
  ◌∷◌, ◌≡◌, ◌≢◌,
}
use hermes_security_skills.Audit.{
  Entry, Format, all_written, append, bad_line, broken_chain, check_entry, draft, encode_entry,
  finish, hash_entry, latest, log_text, read_all, read_line, read_lines,
}
use hermes_security_skills.Audit.Appending.{Appended, IsLine, append-read_all}
use hermes_security_skills.Audit.Chains.{IsChain, read_all_unique}
use hermes_security_skills.Base.Int.{negsuc, pos, ℤ}
use hermes_security_skills.Base.Text.{
  Text, codes, contains_rune, is_space, split, trim_left, trim_right, trim_space, ◌==◌,
}

abbrev number : ℤ → Text → Text
number (pos n) rest = 0 ∷ n ∷ rest
number (negsuc n) rest = 1 ∷ n ∷ rest

abbrev sized : Text → Text → Text
sized t rest = length t ∷ t ++ rest

abbrev content : ℤ → Text → Text → Text → Unit {0} → Text → Text
content s ts actor action d prev = number s (sized ts (sized actor (sized action prev)))

abbrev first_hash : Text
first_hash = content (pos 1) (codes "t1") (codes "me") (codes "open") tt []

abbrev second_hash : Text
second_hash = content (pos 2) (codes "t2") (codes "me") (codes "close") tt first_hash

abbrev format : Format
format = record {
  Detail = Unit {0};
  hash = λ s ts actor action d prev. some (content s ts actor action d prev);
  decode = λ ln.
      if ln == codes "a"
      then some (pos 1, codes "t1", codes "me", codes "open", tt, [], first_hash)
      else if ln == codes "b"
      then some (pos 2, codes "t2", codes "me", codes "close", tt, first_hash, second_hash)
      else if ln == codes "c"
      then some (
        pos 3,
        codes "t3",
        codes "me",
        codes "open",
        tt,
        second_hash,
        content (pos 3) (codes "t3") (codes "me") (codes "open") tt second_hash,
      )
      else none;
  encode = λ s ts actor action d prev h. some (codes "c");
}

abbrev entries : List (Entry format)
entries =
    record {
      seq = pos 2;
      ts = codes "t2";
      actor = codes "me";
      action = codes "close";
      detail = tt;
      prev_hash = first_hash;
      entry_hash = second_hash;
    }
    ∷ record {
      seq = pos 1;
      ts = codes "t1";
      actor = codes "me";
      action = codes "open";
      detail = tt;
      prev_hash = [];
      entry_hash = first_hash;
    }
    ∷ []

reading : Unit {0}
unfolding read_all read_lines read_line check_entry hash_entry ◌==◌ split trim_space trim_left
    trim_right is_space
reading = tt

read : read_all format (log_text (codes "a\nb\n")) ≡ ok entries
unfolding reading
read = refl

read_without_end : read_all format (log_text (codes "a\nb")) ≡ ok entries
unfolding reading
read_without_end = refl

swapped : read_all format (log_text (codes "b\na\n")) ≡ err broken_chain
unfolding reading
swapped = refl

∷-ne-[] : (a : ℕ) (s : Text) → (a ∷ s) ≢ []
∷-ne-[] a s h = cc

zero-ne-one : ◌≢◌ {A = ℕ} 0 1
zero-ne-one h = omega (arith, h)

∷-injective : (a b : ℕ) (s t : Text) → (a ∷ s) ≡ (b ∷ t) → (a ≡ b) × (s ≡ t)
∷-injective a b s t h = (cc, cc)

++-injective : (x y s t : Text) → length x ≡ length y → (x ++ s) ≡ (y ++ t) → (x ≡ y) × (s ≡ t)
++-injective [] [] s t n h = (refl, h)
++-injective [] (b ∷ y) s t n h = absurd (omega (arith, n))
++-injective (a ∷ x) [] s t n h = absurd (omega (arith, n))
++-injective (a ∷ x) (b ∷ y) s t n h =
    let (same, tails) = ∷-injective a b (x ++ s) (y ++ t) h in
    let (fronts, rests) = ++-injective x y s t (omega (arith, n)) tails in
    (ap₂ (λ c u. c ∷ u) same fronts, rests)

sized-injective : (x y s t : Text) → sized x s ≡ sized y t → (x ≡ y) × (s ≡ t)
sized-injective x y s t h =
    let (same, rest) = ∷-injective (length x) (length y) (x ++ s) (y ++ t) h in
    ++-injective x y s t same rest

number-injective : (m n : ℤ) (s t : Text) → number m s ≡ number n t → (m ≡ n) × (s ≡ t)
number-injective (pos m) (pos n) s t h =
    let (same, rest) = ∷-injective m n s t (∷-injective 0 0 (m ∷ s) (n ∷ t) h).1 in
    (ap pos same, rest)
number-injective (pos m) (negsuc n) s t h =
    absurd (zero-ne-one (∷-injective 0 1 (m ∷ s) (n ∷ t) h).0)
number-injective (negsuc m) (pos n) s t h =
    absurd (zero-ne-one (sym (∷-injective 1 0 (m ∷ s) (n ∷ t) h).0))
number-injective (negsuc m) (negsuc n) s t h =
    let (same, rest) = ∷-injective m n s t (∷-injective 1 1 (m ∷ s) (n ∷ t) h).1 in
    (ap negsuc same, rest)

no_collision :
    (s s' : ℤ) (ts ts' actor actor' action action' : Text) (d d' : Unit {0}) (prev prev' h : Text)
    → format.hash s ts actor action d prev ≡ some h
    → format.hash s' ts' actor' action' d' prev' ≡ some h
    → (s ≡ s') × (ts ≡ ts') × (actor ≡ actor') × (action ≡ action') × (d ≡ d') × (prev ≡ prev')
no_collision s s' ts ts' actor actor' action action' d d' prev prev' h e e' =
    let same = some-injective _ _ (e ∙ sym e') in
    let (n, r1) = number-injective s s' _ _ same in
    let (t, r2) = sized-injective ts ts' _ _ r1 in
    let (a, r3) = sized-injective actor actor' _ _ r2 in
    let (c, r4) = sized-injective action action' _ _ r3 in (n, t, a, c, refl, r4)

not_genesis :
    (s : ℤ) (ts actor action : Text) (d : Unit {0}) (prev : Text)
    → format.hash s ts actor action d prev ≢ some []
not_genesis (pos n) ts actor action d prev h = ∷-ne-[] _ _ (some-injective _ _ h)
not_genesis (negsuc n) ts actor action d prev h = ∷-ne-[] _ _ (some-injective _ _ h)

read_all_unique_example : entries ≡ entries
read_all_unique_example =
    read_all_unique format no_collision not_genesis (log_text (codes "a\nb\n"))
      (log_text (codes "a\nb")) entries entries read read_without_end refl

-- The line of the third entry is read back.
third_read_back :
    (e : Entry format) (line : Text)
    → IsChain format (e ∷ entries)
    → e.ts ≡ codes "t3"
    → e.actor ≡ codes "me"
    → e.action ≡ codes "open"
    → e.detail ≡ tt
    → encode_entry format e ≡ some line
    → IsLine format e line
unfolding reading hash_entry contains_rune
third_read_back e line (linked, seq, hashed, _) ts by did about coded =
    let hash =
      sym (some-injective _ _ hashed)
      ∙ (λ i. content (seq i) (ts i) (by i) (did i) tt (linked i)) in
    let given : some (codes "c") ≡ some line = coded in
    subst (IsLine format e) (some-injective _ _ given) (record {
      one_line = refl;
      not_blank = refl;
      trimmed = refl;
      decoded = sym (λ i. some (seq i, ts i, by i, did i, tt, linked i, hash i));
    })

append-read_all_example :
    Appended format
      (codes "t3")
      (codes "me")
      (codes "open")
      tt
      (log_text (codes "a\nb\n"))
      entries
      (append format all_written
        (codes "t3")
        (codes "me")
        (codes "open")
        tt
        (record { last = latest format entries })
        (log_text (codes "a\nb\n")))
append-read_all_example =
    append-read_all format all_written (codes "t3") (codes "me") (codes "open") tt
      (log_text (codes "a\nb\n")) entries (inr (codes "a\nb", refl)) third_read_back read

-- A log without a line feed at its end is accepted, and not any more after an Append.
glued :
    read_all format
      (append format all_written
        (codes "t3")
        (codes "me")
        (codes "open")
        tt
        (record { last = latest format entries })
        (log_text (codes "a\nb"))).2
    ≡ err bad_line
unfolding reading append draft finish
glued = refl
