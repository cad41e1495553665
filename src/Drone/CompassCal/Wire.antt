-- ===== src/Drone/CompassCal/Wire.antt =====
-- ros2/src/drone_control/drone_control/compass_cal.py: what the flight controller packed arrives.
use nova_robotics_drone_cont.Common.{
  ℕ, suc, ◌+◌, ◌*◌, ◌/◌, ◌%◌, ◌^◌, ◌<◌, ◌≡◌, refl, ap, ◌∙◌, not, some, List, [], ◌∷◌, ◌++◌, ◌==◌,
  take, arith,
}
use nova_robotics_drone_cont.Common.Bytes.{le, of_le, of_le-le_4}
use nova_robotics_drone_cont.Drone.CompassCal.{
  Mavlink, msg_id_report, Report, status_name, payload_bytes, decode_report, put_report,
  Calibration, on_mavlink,
}

abbrev pub IsBits : ℕ → Type 0
IsBits n = n < 2 ^ 32

-- MAG_CAL_REPORT as the dialect lays it out: ten floats, by their bits, and four bytes.
pub record MagCalReport : Type 0 where
  pub fitness : ℕ
  pub ofs_x : ℕ
  pub ofs_y : ℕ
  pub ofs_z : ℕ
  pub diag_x : ℕ
  pub diag_y : ℕ
  pub diag_z : ℕ
  pub offdiag_x : ℕ
  pub offdiag_y : ℕ
  pub offdiag_z : ℕ
  pub compass_id : ℕ
  pub cal_mask : ℕ
  pub cal_status : ℕ
  pub autosaved : ℕ

pub record IsValid (r : MagCalReport) : Type 0 where
  pub is_fitness : IsBits r.fitness
  pub is_ofs_x : IsBits r.ofs_x
  pub is_ofs_y : IsBits r.ofs_y
  pub is_ofs_z : IsBits r.ofs_z
  pub is_diag_x : IsBits r.diag_x
  pub is_diag_y : IsBits r.diag_y
  pub is_diag_z : IsBits r.diag_z
  pub is_offdiag_x : IsBits r.offdiag_x
  pub is_offdiag_y : IsBits r.offdiag_y
  pub is_offdiag_z : IsBits r.offdiag_z
  pub id_byte : r.compass_id < 256
  pub mask_byte : r.cal_mask < 256
  pub status_byte : r.cal_status < 256
  pub saved_byte : r.autosaved < 256

-- Two values of 32 bits in one word of the message, the first one low.
abbrev pub pair : ℕ → ℕ → ℕ
pair x y = x + 2 ^ 32 * y

abbrev pub four_bytes : ℕ → ℕ → ℕ → ℕ → ℕ
four_bytes a b c d = a + 256 * (b + 256 * (c + 256 * d))

-- The message that carries the report in full.
abbrev pub report_message : MagCalReport → Mavlink
report_message r = record {
  msgid = msg_id_report;
  len = 44;
  payload64 =
      pair r.fitness r.ofs_x
      ∷ pair r.ofs_y r.ofs_z
      ∷ pair r.diag_x r.diag_y
      ∷ pair r.diag_z r.offdiag_x
      ∷ pair r.offdiag_y r.offdiag_z
      ∷ four_bytes r.compass_id r.cal_mask r.cal_status r.autosaved
      ∷ [];
}

-- What the service shows of it.
abbrev pub shown : MagCalReport → Report
shown r = record {
  compass_id = r.compass_id;
  cal_status = r.cal_status;
  cal_status_name = status_name r.cal_status;
  autosaved = not (r.autosaved == 0);
  fitness = r.fitness;
  offsets = r.ofs_x ∷ r.ofs_y ∷ r.ofs_z ∷ [];
  diag = r.diag_x ∷ r.diag_y ∷ r.diag_z ∷ [];
  offdiag = r.offdiag_x ∷ r.offdiag_y ∷ r.offdiag_z ∷ [];
}

le_step : (v x m : ℕ) → le (suc v) (x + 256 * m) ≡ (x % 256) ∷ le v (x / 256 + m)
le_step v x m =
    let a : (x + 256 * m) % 256 ≡ x % 256 = omega arith in
    let b : (x + 256 * m) / 256 ≡ x / 256 + m = omega arith in rw (a, b) refl

le-pair : (x y : ℕ) → IsBits x → le 8 (pair x y) ≡ le 4 x ++ le 4 y
le-pair x y h =
    ap (le 8) (omega arith)
    ∙ le_step 7 x (2 ^ 24 * y)
    ∙ ap (λ l. x % 256 ∷ l)
        (ap (le 7) (omega arith)
          ∙ le_step 6 (x / 256) (2 ^ 16 * y)
          ∙ ap (λ l. x / 256 % 256 ∷ l)
              (ap (le 6) (omega arith)
                ∙ le_step 5 (x / 256 / 256) (2 ^ 8 * y)
                ∙ ap (λ l. x / 256 / 256 % 256 ∷ l)
                    (ap (le 5) (omega arith)
                      ∙ le_step 4 (x / 256 / 256 / 256) y
                      ∙ ap (λ n. x / 256 / 256 / 256 % 256 ∷ le 4 n) (omega arith))))

-- A small byte in front.
le_front : (v a n : ℕ) → a < 256 → le (suc v) (a + 256 * n) ≡ a ∷ le v n
le_front v a n h =
    let b : (a + 256 * n) % 256 ≡ a = omega arith in
    let c : (a + 256 * n) / 256 ≡ n = omega arith in rw (b, c) refl

le-four_bytes :
    (a b c d : ℕ)
    → a < 256
    → b < 256
    → c < 256
    → d < 256
    → le 8 (four_bytes a b c d) ≡ a ∷ b ∷ c ∷ d ∷ 0 ∷ 0 ∷ 0 ∷ 0 ∷ []
le-four_bytes a b c d h k l m =
    le_front 7 a (b + 256 * (c + 256 * d)) h
    ∙ ap (λ t. a ∷ t)
        (le_front 6 b (c + 256 * d) k
          ∙ ap (λ t. b ∷ t)
              (le_front 5 c d l ∙ ap (λ t. c ∷ t) (ap (le 5) (omega arith) ∙ le_front 4 d 0 m)))

abbrev six : List ℕ → List ℕ → List ℕ → List ℕ → List ℕ → List ℕ → List ℕ
six a b c d e f = a ++ (b ++ (c ++ (d ++ (e ++ (f ++ [])))))

six_alike :
    (a a' b b' c c' d d' e e' f f' : List ℕ)
    → a ≡ a'
    → b ≡ b'
    → c ≡ c'
    → d ≡ d'
    → e ≡ e'
    → f ≡ f'
    → six a b c d e f ≡ six a' b' c' d' e' f'
six_alike a a' b b' c c' d d' e e' f f' p q r s t u = cc

-- The message brings back the bytes.
report_bytes :
    (r : MagCalReport)
    → IsValid r
    → payload_bytes (report_message r) ≡ (
        le 4 r.fitness
        ++ (le 4 r.ofs_x
            ++ (le 4 r.ofs_y
                ++ (le 4 r.ofs_z
                    ++ (le 4 r.diag_x
                        ++ (le 4 r.diag_y
                            ++ (le 4 r.diag_z
                                ++ (le 4 r.offdiag_x
                                    ++ (le 4 r.offdiag_y
                                        ++ (le 4 r.offdiag_z
                                            ++ (r.compass_id ∷ r.cal_mask ∷ r.cal_status
                                                ∷ r.autosaved ∷ [])))))))))))
unfolding payload_bytes
report_bytes r v = ap (take 44) (
    six_alike _ _ _ _ _ _ _ _ _ _ _ _ (le-pair r.fitness r.ofs_x v.is_fitness)
      (le-pair r.ofs_y r.ofs_z v.is_ofs_y) (le-pair r.diag_x r.diag_y v.is_diag_x)
      (le-pair r.diag_z r.offdiag_x v.is_diag_z) (le-pair r.offdiag_y r.offdiag_z v.is_offdiag_y)
      (le-four_bytes r.compass_id r.cal_mask r.cal_status r.autosaved v.id_byte v.mask_byte
        v.status_byte v.saved_byte))

-- The report whose floats are read by `g`.
abbrev shown_by : (ℕ → ℕ) → MagCalReport → Report
shown_by g r = record (shown r) {
  fitness = g r.fitness;
  offsets = g r.ofs_x ∷ g r.ofs_y ∷ g r.ofs_z ∷ [];
  diag = g r.diag_x ∷ g r.diag_y ∷ g r.diag_z ∷ [];
  offdiag = g r.offdiag_x ∷ g r.offdiag_y ∷ g r.offdiag_z ∷ [];
}

shown_alike :
    (g : ℕ → ℕ) (r : MagCalReport)
    → g r.fitness ≡ r.fitness
    → g r.ofs_x ≡ r.ofs_x
    → g r.ofs_y ≡ r.ofs_y
    → g r.ofs_z ≡ r.ofs_z
    → g r.diag_x ≡ r.diag_x
    → g r.diag_y ≡ r.diag_y
    → g r.diag_z ≡ r.diag_z
    → g r.offdiag_x ≡ r.offdiag_x
    → g r.offdiag_y ≡ r.offdiag_y
    → g r.offdiag_z ≡ r.offdiag_z
    → shown_by g r ≡ shown r
shown_alike g r a b c d e f h i j k = cc

read_back : (r : MagCalReport) → IsValid r → shown_by (λ n. of_le (le 4 n)) r ≡ shown r
read_back r v =
    shown_alike (λ n. of_le (le 4 n)) r (of_le-le_4 r.fitness v.is_fitness)
      (of_le-le_4 r.ofs_x v.is_ofs_x) (of_le-le_4 r.ofs_y v.is_ofs_y)
      (of_le-le_4 r.ofs_z v.is_ofs_z) (of_le-le_4 r.diag_x v.is_diag_x)
      (of_le-le_4 r.diag_y v.is_diag_y) (of_le-le_4 r.diag_z v.is_diag_z)
      (of_le-le_4 r.offdiag_x v.is_offdiag_x) (of_le-le_4 r.offdiag_y v.is_offdiag_y)
      (of_le-le_4 r.offdiag_z v.is_offdiag_z)

-- A calibration report that the flight controller sends in full, of any ten floats and four bytes,
-- becomes the report that the service shows, field by field, with the time of its arrival; the
-- progress stays as it was.
pub report_arrives :
    (r : MagCalReport) (st : Calibration) (now : ℕ)
    → IsValid r
    → on_mavlink st (report_message r) now
      ≡ record st { report = some (shown r); last_update_t = now }
unfolding on_mavlink decode_report
report_arrives r st now v =
    ap (λ buf. put_report (decode_report buf) st now) (report_bytes r v)
    ∙ ap (λ x. record st { report = some x; last_update_t = now }) (read_back r v)
