-- ===== src/Dio/Stamp/Scan.antt =====
-- What the `for` loop of `wrn_dio_cmd_stamp` finds: the first selected channel that has stamps.
use sbndaq_wr.Base.{
  refl, get_elem?_in, ℕ, zero, suc, ◌+◌, ◌*◌, ◌^◌, ◌<◌, ◌≤◌, ◌≡◌, ◌≢◌, ◌∙◌, ap, inl, inr, ◌⊎◌, List,
  [], some, Bool, true, false, arith, length, get_elem?, set, min, lt→ltb, ◌==◌, has_bits,
  if◌then◌else◌, take, Bool-cases, Outcome, done, set-get_elem?, checked, pure, ◌>>=◌, drop, dec_lt,
  ℕ_discrete, ==_iff, ap₂,
}
use sbndaq_wr.Base.Triples.{if_apply, bind-done}
use sbndaq_wr.Mmio.{Timespec, u32}
use sbndaq_wr.Dio.Device.{Channel, Driver, n_stamp, channel_at, store_channel}
use sbndaq_wr.Dio.Ring.{drain}
use sbndaq_wr.Dio.Ring.Queue.{IsRing, used, contents, store_all, window, length-window}
use sbndaq_wr.Dio.Ring.Drain.{IsDrained, drain_refines}
use sbndaq_wr.Dio.Stamp.{Pass, scan}
use sbndaq_wr.Dio.Invariant.{IsDriver, AllChannels-get}

-- `(1 << ch) & mask`, as the loop tests it.
abbrev pub selected : ℕ → ℕ → Bool
selected ch mask = has_bits (u32 (1 * 2 ^ ch)) mask

-- Channel `j` is not selected, or it has no stamps.
pub data IsIdle (d : Driver) (mask j : ℕ) : Type 0 where
  unselected : selected j mask ≡ false → IsIdle d mask j
  empty : (c : Channel) → get_elem? d.ch j ≡ some c → used c ≡ 0 → IsIdle d mask j

-- The loop stops at channel `i`, and has moved its oldest stamps into `t`.
pub record Hit (d : Driver) (mask lo i : ℕ) (t : List Timespec) (o : Outcome Driver Pass)
    : Type 0 where
  pub c : Channel
  pub c' : Channel
  pub there : get_elem? d.ch i ≡ some c
  pub chosen : selected i mask ≡ true
  pub stamps : used c ≢ 0
  pub idle_before : (j : ℕ) → lo ≤ j → j < i → IsIdle d mask j
  pub ring : IsRing c'
  pub rest : contents c' ≡ drop n_stamp (contents c)
  pub others : c' ≡ record c { btail = c'.btail }
  pub result :
      o
      ≡ done
          (record {
            nstamp = min n_stamp (used c);
            ch = i;
            t = store_all t 0 (take n_stamp (contents c));
          })
          (record d { ch = set d.ch i c' })

-- No selected channel from `lo` up to `hi` has stamps.
pub record Miss (d : Driver) (mask lo hi : ℕ) (t : List Timespec) (o : Outcome Driver Pass)
    : Type 0 where
  pub idle : (j : ℕ) → lo ≤ j → j < hi → IsIdle d mask j
  pub result : o ≡ done (record { nstamp = 0; ch = hi; t = t }) d

abbrev pub Scanned : Driver → ℕ → ℕ → ℕ → List Timespec → Outcome Driver Pass → Type 0
Scanned d mask lo hi t o = ((i : ℕ) × (i < hi) × Hit d mask lo i t o) ⊎ Miss d mask lo hi t o

-- One more idle channel in front.
idle-cons :
    {d : Driver} {mask ch k : ℕ}
    → IsIdle d mask ch
    → ((j : ℕ) → ch + 1 ≤ j → j < k → IsIdle d mask j)
    → (j : ℕ) → ch ≤ j
    → j < k
    → IsIdle d mask j
idle-cons {ch} first later j lo hi = elim (dec_lt ch j) [
  | yes above ↦ later j (omega arith) hi
  | no same ↦ let e : ch ≡ j = omega arith in rw (← e) first
]

Scanned-cons :
    {d : Driver} {mask ch hi : ℕ} {t : List Timespec} {o : Outcome Driver Pass}
    → IsIdle d mask ch
    → Scanned d mask (ch + 1) hi t o
    → Scanned d mask ch hi t o
Scanned-cons first (inl (i, h, hit)) = inl (
  i,
  h,
  record {
    c = hit.c;
    c' = hit.c';
    there = hit.there;
    chosen = hit.chosen;
    stamps = hit.stamps;
    idle_before = idle-cons first hit.idle_before;
    ring = hit.ring;
    rest = hit.rest;
    others = hit.others;
    result = hit.result;
  },
)
Scanned-cons first (inr miss) =
    inr (record { idle = idle-cons first miss.idle; result = miss.result })

-- The loop at a channel that is not selected, and at one that is.
scan_unselected :
    (rounds ch mask : ℕ) (t : List Timespec) (d : Driver)
    → ch < 32
    → selected ch mask ≡ false
    → scan (suc rounds) ch mask t d ≡ scan rounds (ch + 1) mask t d
unfolding scan
scan_unselected rounds ch mask t d h e = rw (lt→ltb ch 32 h, e)

-- A channel that is there is stored.
store_there :
    (ch : ℕ) (d : Driver) (c c' : Channel)
    → get_elem? d.ch ch ≡ some c
    → store_channel ch c' d ≡ done tt (record d { ch = set d.ch ch c' })
store_there ch d c c' there = rw (store_channel, there) refl

scan-selected :
    (rounds ch mask : ℕ) (t : List Timespec) (d : Driver) (c c' : Channel) (n : ℕ)
    (t' : List Timespec)
    → ch < 32
    → selected ch mask ≡ true
    → get_elem? d.ch ch ≡ some c
    → drain n_stamp c 0 t ≡ some (c', n, t')
    → scan (suc rounds) ch mask t d ≡ (
        if n == 0
        then scan rounds (ch + 1) mask t' (record d { ch = set d.ch ch c' })
        else done (record { nstamp = n; ch = ch; t = t' }) (record d { ch = set d.ch ch c' }))
unfolding scan
scan-selected rounds ch mask t d c c' n t' h e there drained =
    rw (lt→ltb ch 32 h, e, ◌>>=◌, channel_at, checked, there, drained)
      (bind-done (store_channel ch c')
          (λ _.
            if n == 0
            then scan rounds (ch + 1) mask t'
            else pure (record { nstamp = n; ch = ch; t = t' }))
          (store_there ch d c c' there)
        ∙ if_apply (n == 0) (scan rounds (ch + 1) mask t')
            (pure (record { nstamp = n; ch = ch; t = t' })) (record d { ch = set d.ch ch c' }))

record_ch_same : (d : Driver) (cs : List Channel) → cs ≡ d.ch → record d { ch = cs } ≡ d
record_ch_same d cs e = ap (λ (l : List Channel). record d { ch = l }) e

if_true : {A : Type 0} {b : Bool} (x y : A) → b ≡ true → (if b then x else y) ≡ x
if_true x y e = ap (λ b. if b then x else y) e

if_false : {A : Type 0} {b : Bool} (x y : A) → b ≡ false → (if b then x else y) ≡ y
if_false x y e = ap (λ b. if b then x else y) e

ne_test : {n : ℕ} → n ≢ 0 → (n == 0) ≡ false
ne_test h = ground arith

module _ (rounds ch hi mask : ℕ) (t : List Timespec) (d : Driver) {c c' : Channel} {n : ℕ}
    {t' : List Timespec} (there : get_elem? d.ch ch ≡ some c) (ring : IsRing c)
    (dr : IsDrained n_stamp c c' 0 n t t') where
  -- An empty ring is left as it was.
  drained_nothing : n ≡ 0 → (used c ≡ 0) × (t' ≡ t) × (c' ≡ c)
  drained_nothing none_found =
      let empty : used c ≡ 0 = omega (arith, dr.count) in
      let nothing : contents c ≡ [] = ap (window c.tsbuf c.btail) empty in
      let no_more : used c' ≡ 0 = omega (
        arith,
        length-window c'.tsbuf c'.btail (used c'),
        ap length dr.rest,
        ap (λ (l : List Timespec). length (drop n_stamp l)) nothing,
      ) in
      let same_head : c'.bhead ≡ c.bhead = ap (λ (k : Channel). k.bhead) dr.others in
      let same_tail : c'.btail ≡ c.btail =
        omega (arith, dr.ring, ring, no_more, empty, same_head) in
      (
        empty,
        dr.stamps ∙ ap (λ (l : List Timespec). store_all t 0 (take n_stamp l)) nothing,
        dr.others ∙ ap (λ (i : ℕ). record c { btail = i }) same_tail,
      )

  record_ch_kept : c' ≡ c → record d { ch = set d.ch ch c' } ≡ d
  record_ch_kept e =
      ap (λ (k : Channel). record d { ch = set d.ch ch k }) e
      ∙ record_ch_same d (set d.ch ch c) (set-get_elem? d.ch ch c there)

  -- An empty ring is passed over.
  scan_over :
      ch < 32
      → selected ch mask ≡ true
      → drain n_stamp c 0 t ≡ some (c', n, t')
      → n ≡ 0
      → scan (suc rounds) ch mask t d ≡ scan rounds (ch + 1) mask t d
  scan_over small chosen runs none_found =
      let (no_stamps, same_t, same_c) = drained_nothing none_found in
      scan-selected rounds ch mask t d c c' n t' small chosen there runs
      ∙ if_true _ _ ((==_iff n 0).1 none_found)
      ∙ ap₂ (scan rounds (ch + 1) mask) same_t (record_ch_kept same_c)

  -- A ring with stamps ends the loop.
  scan-Hit :
      ch < hi
      → ch < 32
      → selected ch mask ≡ true
      → drain n_stamp c 0 t ≡ some (c', n, t')
      → n ≢ 0
      → Hit d mask ch ch t (scan (suc rounds) ch mask t d)
  scan-Hit below small chosen runs found = record {
    c = c;
    c' = c';
    there = there;
    chosen = chosen;
    stamps = λ e. found (omega (arith, dr.count));
    idle_before = λ j lo up. absurd (omega arith);
    ring = dr.ring;
    rest = dr.rest;
    others = dr.others;
    result =
        scan-selected rounds ch mask t d c c' n t' small chosen there runs
        ∙ if_false _ _ (ne_test found)
        ∙ ap₂
            (λ (k : ℕ) (l : List Timespec).
              done (record { nstamp = k; ch = ch; t = l }) (record d { ch = set d.ch ch c' }))
            (let e : n ≡ min n_stamp (used c) = omega (arith, dr.count) in e) dr.stamps;
  }

-- A selected channel: its stamps are taken, or it is passed over.
scan-Scanned_selected :
    (rounds ch hi mask : ℕ) (t : List Timespec) (d : Driver) (c : Channel)
    → ch < hi
    → ch < 32
    → IsRing c
    → length t ≡ n_stamp
    → selected ch mask ≡ true
    → get_elem? d.ch ch ≡ some c
    → Scanned d mask (ch + 1) hi t (scan rounds (ch + 1) mask t d)
    → Scanned d mask ch hi t (scan (suc rounds) ch mask t d)
scan-Scanned_selected rounds ch hi mask t d c below small ring full chosen there later =
    let (c', n, t', runs, dr) = drain_refines n_stamp 0 t ring (omega (arith, full)) in
    elim (ℕ_discrete n 0) [
      | yes none_found ↦
          rw (scan_over rounds ch hi mask t d there ring dr small chosen runs none_found) (
            Scanned-cons
              (IsIdle.empty c there
                (drained_nothing rounds ch hi mask t d there ring dr none_found).0)
              later)
      | no found ↦
          inl
            (ch, below, scan-Hit rounds ch hi mask t d there ring dr below small chosen runs found)
    ]

-- The loop over channels that exist finds the first selected one that has stamps, or none.
pub scan-Scanned :
    (rounds ch hi mask : ℕ) (t : List Timespec) {l : Bool} {d : Driver}
    → ch + rounds ≡ hi
    → hi ≤ 5
    → length t ≡ n_stamp
    → IsDriver l d
    → Scanned d mask ch hi t (scan rounds ch mask t d)
scan-Scanned zero ch hi mask t {d} e h full v = inr (record {
  idle = λ j lo up. absurd (omega arith);
  result =
      unfold scan in ap (λ (k : ℕ). done (record { nstamp = 0; ch = k; t = t }) d) (omega arith);
})
scan-Scanned (suc rounds) ch hi mask t {d} e h full v =
    let later = scan-Scanned rounds (ch + 1) hi mask t (omega arith) h full v in
    elim (Bool-cases (selected ch mask)) [
      | inl chosen ↦
          let (c, there) = get_elem?_in d.ch ch (omega (arith, v.channels)) in
          scan-Scanned_selected rounds ch hi mask t d c (omega arith) (omega arith)
            (AllChannels-get d.ch ch v.each there).ring full chosen there later
      | inr unchosen ↦
          rw (scan_unselected rounds ch mask t d (omega arith) unchosen)
            (Scanned-cons (IsIdle.unselected unchosen) later)
    ]
