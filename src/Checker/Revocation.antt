-- ===== src/Checker/Revocation.antt =====
-- `s3` of internal/check/checker.go: deliveries after the revocation bound, counted from the sink's
-- ring for every episode of the ground truth.
use cmek.Base.{
  ◌++◌, set_at, ℕ, ◌+◌, List, [], ◌∷◌, Option, none, some, Bool, true, false, ltb, not, ◌==◌, ◌&&◌,
  ◌||◌, if◌then◌else◌,
}
use cmek.Kms.Fake.{KeyEvent}
use cmek.Sink.{Lane, delivered_between}
use cmek.Sink.Window.{delivered_in}
use cmek.Checker.{Window, Verdict, windows}

-- The checker's state for S3, by tenant. `last_seq` is set at the first revoke that is seen, before
-- it is read; the key service's clock is past the zero time, so a `seen` of zero is none.
pub record Tracker : Type 0 where
  pub last_seq : ℕ → ℕ
  pub seen : ℕ → ℕ
  pub posted : ℕ → ℕ
  pub late : ℕ
  pub gap : Bool

-- The upper end of a window, as the sink takes it.
abbrev pub upper : Option ℕ → ℕ
upper none = 0
upper (some at) = at

-- What the windows of one tenant give: deliveries counted, a gap, and the new resume point.
abbrev merge : ℕ × ℕ × Bool → ℕ × Bool × ℕ → ℕ × Bool × ℕ
merge got rest = (got.0 + rest.0, got.2 || rest.1, if ltb rest.2 got.1 then got.1 else rest.2)

-- The inner loop over the windows of one tenant.
unfoldable pub scan_windows : ℕ → Lane → ℕ → List Window → ℕ × Bool × ℕ
unfolding delivered_between
scan_windows lease lane since [] = (0, false, since)
scan_windows lease lane since (w ∷ ws) =
    merge (delivered_between lane since (w.revoke + lease) (upper w.restore))
      (scan_windows lease lane since ws)

-- Whether a detection line is posted for the episode: `detected` is what the registry tells.
unfoldable pub detection_line : ℕ → Option ℕ → ℕ → ℕ → Tracker → Bool × Tracker
detection_line tenants detected idx revoke t =
    if t.posted idx == revoke || not (ltb idx tenants) then (false, t) else elim detected [
      | none ↦ (false, t)
      | some at ↦
          if ltb revoke at
          then (true, record t { posted = set_at idx revoke t.posted })
          else (false, t)
    ]

-- The start of the outer loop's body: a revoke that is new moves the resume point to the present.
unfoldable pub note_seen : Lane → ℕ → ℕ → Tracker → Tracker
note_seen lane idx revoke t =
    if t.seen idx == revoke
    then t
    else record t { seen = set_at idx revoke t.seen; last_seq = set_at idx lane.count t.last_seq }

unfoldable pub last_revoke : ℕ → List Window → ℕ
last_revoke r [] = r
last_revoke r (w ∷ ws) = last_revoke w.revoke ws

abbrev advance : ℕ → ℕ × Bool × ℕ → Tracker → Tracker
advance idx got t = record t {
  late = t.late + got.0;
  gap = t.gap || got.1;
  last_seq = set_at idx got.2 t.last_seq;
}

abbrev count_late : ℕ → Lane → ℕ → List Window → Tracker → Tracker
count_late lease lane idx ws t = advance idx (scan_windows lease lane (t.last_seq idx) ws) t

-- The body of the outer loop for a tenant's windows, the line aside. The lane is one snapshot, where
-- the source takes the sink's lock for each window.
unfoldable pub check_tenant : ℕ → Lane → ℕ → List Window → Tracker → Tracker
unfolding note_seen scan_windows last_revoke
check_tenant lease lane idx ws t =
    count_late lease lane idx ws (note_seen lane idx (last_revoke 0 ws) t)

-- Whether a window is of the same tenant as a group.
abbrev pub is_of : ℕ → List Window → Bool
is_of i [] = true
is_of i (v ∷ vs) = v.idx == i

-- One round of the outer loop.
unfoldable pub check_group : ℕ → (ℕ → Lane) → List Window → Tracker → Tracker
unfolding check_tenant
check_group lease lanes [] t = t
check_group lease lanes (w ∷ ws) t = check_tenant lease (lanes w.idx) w.idx (w ∷ ws) t

-- The outer loop: `held` is the group of windows of one tenant read so far.
unfoldable pub check_all : ℕ → (ℕ → Lane) → List Window → List Window → Tracker → Tracker
unfolding check_group
check_all lease lanes held [] t = check_group lease lanes held t
check_all lease lanes held (w ∷ ws) t =
    let goes_on = is_of w.idx held in
    check_all lease lanes (if goes_on then held ++ w ∷ [] else w ∷ []) ws
      (if goes_on then t else check_group lease lanes held t)

-- `s3`, without the detection lines.
unfoldable pub s3 : ℕ → (ℕ → Lane) → List KeyEvent → Tracker → Verdict × Tracker
unfolding check_all windows
s3 lease lanes events t =
    let t = check_all lease lanes [] (windows events) t in
    (record { is_green = t.late == 0 && not t.gap; count = t.late }, t)

-- The deliveries, by sequence number, that fall into a violation window.
abbrev pub late_in : ℕ → (ℕ → ℕ) → ℕ → ℕ → List Window → ℕ
late_in lease at since left [] = 0
late_in lease at since left (w ∷ ws) =
    delivered_in at (w.revoke + lease) (upper w.restore) since left + late_in lease at since left ws

abbrev reached : ℕ → ℕ → List Window → ℕ
reached since k [] = since
reached since k (w ∷ ws) = k
