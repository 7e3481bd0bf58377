-- ===== src/Op/Code.antt =====
-- ssa/op.rs: the module `code`, the opcodes of the flat tape (`reduce_*` is its module `reduce`).
use fastsim.Common.{ℕ}

abbrev pub const : ℕ
const = 0

abbrev pub input : ℕ
input = 1

abbrev pub param : ℕ
param = 2

abbrev pub add : ℕ
add = 3

abbrev pub sub : ℕ
sub = 4

abbrev pub mul : ℕ
mul = 5

abbrev pub div : ℕ
div = 6

abbrev pub pow : ℕ
pow = 7

abbrev pub modulo : ℕ
modulo = 8

abbrev pub min : ℕ
min = 9

abbrev pub max : ℕ
max = 10

abbrev pub atan2 : ℕ
atan2 = 11

abbrev pub hypot : ℕ
hypot = 12

abbrev pub neg : ℕ
neg = 20

abbrev pub sin : ℕ
sin = 21

abbrev pub cos : ℕ
cos = 22

abbrev pub tan : ℕ
tan = 23

abbrev pub atan : ℕ
atan = 24

abbrev pub sinh : ℕ
sinh = 25

abbrev pub cosh : ℕ
cosh = 26

abbrev pub tanh : ℕ
tanh = 27

abbrev pub exp : ℕ
exp = 28

abbrev pub log : ℕ
log = 29

abbrev pub log10 : ℕ
log10 = 30

abbrev pub abs : ℕ
abs = 31

abbrev pub sqrt : ℕ
sqrt = 32

abbrev pub sign : ℕ
sign = 33

abbrev pub floor : ℕ
floor = 34

abbrev pub asin : ℕ
asin = 35

abbrev pub acos : ℕ
acos = 36

abbrev pub asinh : ℕ
asinh = 37

abbrev pub acosh : ℕ
acosh = 38

abbrev pub atanh : ℕ
atanh = 39

abbrev pub ceil : ℕ
ceil = 40

abbrev pub round : ℕ
round = 41

abbrev pub trunc : ℕ
trunc = 42

abbrev pub log2 : ℕ
log2 = 43

abbrev pub log1p : ℕ
log1p = 44

abbrev pub expm1 : ℕ
expm1 = 45

abbrev pub cbrt : ℕ
cbrt = 46

abbrev pub erf : ℕ
erf = 47

abbrev pub erfc : ℕ
erfc = 48

abbrev pub lgamma : ℕ
lgamma = 49

abbrev pub tgamma : ℕ
tgamma = 50

abbrev pub digamma : ℕ
digamma = 51

abbrev pub rand_uniform : ℕ
rand_uniform = 52

abbrev pub cmp_gt : ℕ
cmp_gt = 60

abbrev pub cmp_ge : ℕ
cmp_ge = 61

abbrev pub cmp_lt : ℕ
cmp_lt = 62

abbrev pub cmp_le : ℕ
cmp_le = 63

abbrev pub cmp_eq : ℕ
cmp_eq = 64

abbrev pub cmp_ne : ℕ
cmp_ne = 65

abbrev pub select : ℕ
select = 70

abbrev pub fma : ℕ
fma = 80

abbrev pub reduce : ℕ
reduce = 90

abbrev pub dot : ℕ
dot = 100

abbrev pub reduce_sum : ℕ
reduce_sum = 0

abbrev pub reduce_product : ℕ
reduce_product = 1

abbrev pub reduce_min : ℕ
reduce_min = 2

abbrev pub reduce_max : ℕ
reduce_max = 3
