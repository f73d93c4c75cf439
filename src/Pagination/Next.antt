-- ===== src/Pagination/Next.antt =====
-- Two pages in a row of paginate_with_odata.
use mathlib.Core.List
use hyperspot.Common.{List}
use hyperspot.Sql.{Sql}
