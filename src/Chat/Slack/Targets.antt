-- ===== src/Chat/Slack/Targets.antt =====
-- The links to threads that bridge/chat/slack.go takes as targets.
use claw.Prelude.{
  ℕ, ◌-◌, ◌<◌, true, false, ltb, [], ◌∷◌, ◌++◌, ◌≡◌, ◌≢◌, refl, ap, ◌∙◌, arith, Bytes, codes,
  is_nil, same_text, has_prefix, contains, contains_rune, split, length, length-append, take, drop,
  All-append,
}
use claw.Prelude.Text.Trims.{Lacks, before-all, contains-append, trim_prefix-append}
use claw.Prelude.Text.Splits.{split-cons, split-alone}
use claw.Llm.Host.{ok}
use claw.Chat.Slack.{
  before_last, timestamp, thread_ts, find_archives, parse_thread_target, Resolver,
  resolve_slack_target,
}

-- A part of a link: no slash, number sign or question mark.
abbrev pub IsPlain : Bytes → Type 0
IsPlain s = Lacks b'/' s × (Lacks b'#' s × Lacks b'?' s)

-- What Slack's "copy link" gives: the microseconds are the last six digits of the timestamp.
abbrev pub thread_link : Bytes → Bytes → Bytes → Bytes → Bytes
thread_link host ch secs micros =
    codes "https://" ++ (host ++ (codes "/archives/" ++ (ch ++ (codes "/p" ++ (secs ++ micros)))))

no_rune : (s : Bytes) (c : ℕ) → Lacks c s → contains_rune s c ≡ false
unfolding contains_rune
no_rune [] c h = refl
no_rune (d ∷ s) c h = ground (arith, no_rune s c h.1)

before_last-all : (s : Bytes) (c : ℕ) → Lacks c s → before_last s c ≡ s
unfolding before_last
before_last-all [] c h = refl
before_last-all (d ∷ s) c h = ground (arith, no_rune s c h.1, before_last-all s c h.1)

take-length : (s t : Bytes) → take (length s) (s ++ t) ≡ s
take-length [] t = refl
take-length (c ∷ s) t = ap (λ x. c ∷ x) (take-length s t)

drop-length : (s t : Bytes) → drop (length s) (s ++ t) ≡ t
drop-length [] t = refl
drop-length (c ∷ s) t = drop-length s t

length-nonempty : (s : Bytes) → is_nil s ≡ false → 0 < length s
length-nonempty [] h = absurd cc
length-nonempty (c ∷ s) h = omega arith

timestamp-split :
    (secs micros : Bytes)
    → is_nil secs ≡ false
    → length micros ≡ 6
    → timestamp (secs ++ micros) ≡ secs ++ (b'.' ∷ micros)
timestamp-split secs micros h six =
    let n : length (secs ++ micros) - 6 ≡ length secs =
      omega (arith, length-append secs micros, six) in
    let big : 6 < length (secs ++ micros) =
      omega (arith, length-append secs micros, six, length-nonempty secs h) in
    let test : ltb 6 (length (secs ++ micros)) ≡ true = ground arith in
    rw (test, n, take-length secs micros, drop-length secs micros) refl

nonempty-append : (s t : Bytes) → is_nil s ≡ false → is_nil (s ++ t) ≡ false
nonempty-append [] t h = absurd cc
nonempty-append (c ∷ s) t h = refl

thread_ts-split :
    (secs micros : Bytes)
    → IsPlain secs
    → IsPlain micros
    → is_nil secs ≡ false
    → length micros ≡ 6
    → thread_ts (b'p' ∷ (secs ++ micros)) ≡ secs ++ (b'.' ∷ micros)
thread_ts-split secs micros hs hm h six =
    let plain : Lacks b'?' (b'p' ∷ (secs ++ micros)) =
      ((λ p. omega (arith, p)), All-append (λ d. d ≢ b'?') secs micros hs.1.1 hm.1.1) in
    rw
      (
        before-all (b'p' ∷ (secs ++ micros)) b'?' plain,
        trim_prefix-append (codes "p") (secs ++ micros),
        nonempty-append secs micros h,
      )
      (timestamp-split secs micros h six)

-- A host, a channel and a timestamp that make a link.
pub record IsLink (host ch secs micros : Bytes) : Type 0 where
  pub host_plain : IsPlain host
  pub host_other : same_text host (codes "archives") ≡ false
  pub ch_plain : IsPlain ch
  pub ch_there : is_nil ch ≡ false
  pub secs_plain : IsPlain secs
  pub secs_there : is_nil secs ≡ false
  pub micros_plain : IsPlain micros
  pub micros_six : length micros ≡ 6

link-Lacks :
    (host ch secs micros : Bytes)
    → IsLink host ch secs micros
    → Lacks b'#' (thread_link host ch secs micros)
link-Lacks host ch secs micros l =
    let P : ℕ → Type 0 = λ d. d ≢ b'#' in
    All-append P (codes "https://")
      (host ++ (codes "/archives/" ++ (ch ++ (codes "/p" ++ (secs ++ micros))))) (ground arith)
      (All-append P host (codes "/archives/" ++ (ch ++ (codes "/p" ++ (secs ++ micros))))
        l.host_plain.1.0
        (All-append P (codes "/archives/") (ch ++ (codes "/p" ++ (secs ++ micros))) (ground arith) (
          All-append P ch (codes "/p" ++ (secs ++ micros)) l.ch_plain.1.0 (
            All-append P (codes "/p") (secs ++ micros) (ground arith)
              (All-append P secs micros l.secs_plain.1.0 l.micros_plain.1.0)))))

link-split :
    (host ch secs micros : Bytes)
    → IsLink host ch secs micros
    → split (thread_link host ch secs micros) b'/'
      ≡ codes "https:" ∷ [] ∷ host ∷ codes "archives" ∷ ch ∷ (b'p' ∷ (secs ++ micros)) ∷ []
link-split host ch secs micros l =
    let stamp : Bytes = b'p' ∷ (secs ++ micros) in
    let tail : Bytes = codes "/archives/" ++ (ch ++ (b'/' ∷ stamp)) in
    split-cons b'/' (codes "https:") (b'/' ∷ (host ++ tail)) (ground arith)
    ∙ ap (λ x. codes "https:" ∷ x)
        (split-cons b'/' [] (host ++ tail) tt
          ∙ ap (λ x. [] ∷ x)
              (split-cons b'/' host (codes "archives/" ++ (ch ++ (b'/' ∷ stamp))) l.host_plain.0
                ∙ ap (λ x. host ∷ x)
                    (split-cons b'/' (codes "archives") (ch ++ (b'/' ∷ stamp)) (ground arith)
                      ∙ ap (λ x. codes "archives" ∷ x)
                          (split-cons b'/' ch stamp l.ch_plain.0
                            ∙ ap (λ x. ch ∷ x)
                                (split-alone b'/' stamp (
                                  (λ p. omega (arith, p)),
                                  All-append (λ d. d ≢ b'/') secs micros l.secs_plain.0
                                      l.micros_plain.0,
                                ))))))

link-contains :
    (host ch secs micros : Bytes)
    → contains (thread_link host ch secs micros) (codes "/archives/") ≡ true
unfolding contains has_prefix
link-contains host ch secs micros =
    ground
      (arith, contains-append host (codes "/archives/") (ch ++ (codes "/p" ++ (secs ++ micros))))

link-find :
    (host ch raw : Bytes)
    → same_text host (codes "archives") ≡ false
    → find_archives (codes "https:" ∷ [] ∷ host ∷ codes "archives" ∷ ch ∷ raw ∷ [])
      ≡ (ch, thread_ts raw)
unfolding find_archives same_text
link-find host ch raw h = rw h refl

-- A link to a thread is read back as its channel and its timestamp, with a point before the last
-- six digits, whoever resolves the other targets.
pub resolve_slack_target-thread_link :
    (resolver : Resolver) (host ch secs micros : Bytes)
    → IsLink host ch secs micros
    → resolve_slack_target resolver (thread_link host ch secs micros)
      ≡ ok (record {
        id = ch;
        thread_ts = secs ++ (b'.' ∷ micros);
        display = thread_link host ch secs micros;
      })
unfolding resolve_slack_target parse_thread_target
resolve_slack_target-thread_link resolver host ch secs micros l = rw (
  link-contains host ch secs micros,
  before_last-all (thread_link host ch secs micros) b'#' (link-Lacks host ch secs micros l),
  link-split host ch secs micros l,
  link-find host ch (b'p' ∷ (secs ++ micros)) l.host_other,
  thread_ts-split secs micros l.secs_plain l.micros_plain l.secs_there l.micros_six,
  l.ch_there,
)
