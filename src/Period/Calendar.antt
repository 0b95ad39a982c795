-- ===== src/Period/Calendar.antt =====
-- The tables of BitcoinAnalysis/timerange.h and of BitcoinAnalysis/BlockFileName.h by rules.
use Prim.Native.Char.{code}
use Prim.Native.String.{String}
use bitcoin_analysis.Common.{
  ℕ, zero, suc, ◌+◌, ◌-◌, ◌/◌, ◌%◌, ◌<◌, ◌≡◌, refl, ap, ◌∙◌, List, [], ◌∷◌, ◌++◌, map, Bool, ◌&&◌,
  ◌||◌, not, ◌==◌, if◌then◌else◌, some, get_or, arith, lt→ltb,
}
use bitcoin_analysis.Period.{year, month, day, range, before, after, Parameters, set_parameter}
use bitcoin_analysis.Period.Names.{blkname}

-- The characters of a text.
abbrev pub codes : String → List ℕ
codes String.[] = []
codes (String.◌∷◌ c s) = code c ∷ codes s

-- A number with so many decimal digits.
abbrev pub decimal : ℕ → ℕ → List ℕ
decimal zero n = []
decimal (suc k) n = decimal k (n / 10) ++ ((48 + n % 10) ∷ [])

-- The Gregorian calendar.
abbrev pub is_leap : ℕ → Bool
is_leap y = (y % 4 == 0 && not (y % 100 == 0)) || y % 400 == 0

abbrev pub days_in : ℕ → ℕ → ℕ
days_in y m =
    if m == 2
    then if is_leap y then 29 else 28
    else if m == 4 || (m == 6 || (m == 9 || m == 11))
    then 30
    else 31

abbrev pub date : ℕ → ℕ → ℕ → List ℕ
date y m d = decimal 4 y ++ (45 ∷ (decimal 2 m ++ (45 ∷ decimal 2 d)))

-- The year and the month of a count of months from the beginning of year 0.
abbrev pub year_of : ℕ → ℕ
year_of k = k / 12

abbrev pub month_of : ℕ → ℕ
month_of k = k % 12 + 1

abbrev pub january_2009 : ℕ
january_2009 = 24108

abbrev upto : ℕ → ℕ → List ℕ
upto zero i = []
upto (suc n) i = i ∷ upto n (suc i)

get_or-upto {ℓ} :
    {A : Type ℓ} (f : ℕ → A) (n i j : ℕ) (d : A) → j < n → get_or (map f (upto n i)) j d ≡ f (i + j)
get_or-upto f zero i j d h = absurd (omega (arith, h))
get_or-upto f (suc n) i zero d h = ap f {x = i} {y = i + 0} (omega arith)
get_or-upto f (suc n) i (suc j) d h =
    get_or-upto f n (suc i) j d (omega (arith, h))
    ∙ ap f {x = suc i + j} {y = i + suc j} (omega arith)

codes-get_or : (l : List String) (i : ℕ) → codes (get_or l i "") ≡ get_or (map codes l) i []
codes-get_or [] i = refl
codes-get_or (x ∷ xs) zero = refl
codes-get_or (x ∷ xs) (suc i) = codes-get_or xs i

-- The dates at the ends of a month, and the midnight behind them.
abbrev pub first_day : ℕ → List ℕ
first_day k = date (year_of k) (month_of k) 1 ++ codes "-00-00-00"

abbrev pub last_day : ℕ → List ℕ
last_day k = date (year_of k) (month_of k) (days_in (year_of k) (month_of k)) ++ codes "-00-00-00"

abbrev pub month_name : ℕ → List ℕ
month_name k = decimal 4 (year_of k) ++ (45 ∷ decimal 2 (month_of k))

abbrev months : List ℕ
months = upto 72 0

years : year ≡ map (λ i. year_of (january_2009 + i)) months
years = refl

month_numbers : month ≡ map (λ i. month_of (january_2009 + i)) months
month_numbers = refl

last_days :
    day ≡ map (λ i. days_in (year_of (january_2009 + i)) (month_of (january_2009 + i))) months
last_days = refl

names : map codes range ≡ map (λ i. month_name (january_2009 + i)) months
names = refl

befores : map codes before ≡ map (λ i. last_day (24105 + i)) months
befores = refl

afters : map codes after ≡ map (λ i. first_day (january_2009 + i)) months
afters = refl

module _ (i : ℕ) (h : i < 72) where
  entry {ℓ} : {A : Type ℓ} (l : List A) (f : ℕ → A) (d : A) → l ≡ map f months → get_or l i d ≡ f i
  entry l f d e =
      ap (λ l. get_or l i d) e ∙ get_or-upto f 72 0 i d h ∙ ap f {x = 0 + i} {y = i} (omega arith)

  text :
      (l : List String) (f : ℕ → List ℕ) → map codes l ≡ map f months → codes (get_or l i "") ≡ f i
  text l f e = codes-get_or l i ∙ entry (map codes l) f [] e

  -- The parameters of the month `i` after January 2009: the program stops at the last day of the
  -- month by the Gregorian calendar, the statistics name the month, count as new what is after its
  -- first day begins, and as out of use what is before the last day, three months back, begins.
  pub set_parameter-month :
      (p : Parameters) × (set_parameter i ≡ some p)
      × (p.stopyear ≡ year_of (january_2009 + i))
      × (p.stopmon ≡ month_of (january_2009 + i))
      × (p.stopday ≡ days_in (year_of (january_2009 + i)) (month_of (january_2009 + i)))
      × (codes p.timerange ≡ month_name (january_2009 + i))
      × (codes p.after_time ≡ first_day (january_2009 + i))
      × (codes p.before_time ≡ last_day (january_2009 + i - 3))
  unfolding set_parameter
  set_parameter-month = (
    _,
    rw (lt→ltb i 72 h) refl,
    entry year (λ i. year_of (january_2009 + i)) 0 years,
    entry month (λ i. month_of (january_2009 + i)) 0 month_numbers,
    entry day (λ i. days_in (year_of (january_2009 + i)) (month_of (january_2009 + i))) 0 last_days,
    text range (λ i. month_name (january_2009 + i)) names,
    text after (λ i. first_day (january_2009 + i)) afters,
    text before (λ i. last_day (24105 + i)) befores
        ∙ ap last_day {x = 24105 + i} {y = january_2009 + i - 3} (omega arith),
  )

block_paths :
    map codes blkname
    ≡ map (λ i. codes "E:\\blocks\\blk" ++ (decimal 5 i ++ codes ".dat")) (upto 237 0)
block_paths = refl

-- The path of the block file `i` has the number `i` with five digits.
pub blkname-decimal :
    (i : ℕ)
    → i < 237
    → codes (get_or blkname i "") ≡ codes "E:\\blocks\\blk" ++ (decimal 5 i ++ codes ".dat")
blkname-decimal i h =
    codes-get_or blkname i
    ∙ ap (λ l. get_or l i []) block_paths
    ∙ get_or-upto (λ i. codes "E:\\blocks\\blk" ++ (decimal 5 i ++ codes ".dat")) 237 0 i [] h
    ∙ ap (λ (i : ℕ). codes "E:\\blocks\\blk" ++ (decimal 5 i ++ codes ".dat")) {x = 0 + i} {y = i}
        (omega arith)
