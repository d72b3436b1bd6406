-- ===== src/Html.antt =====
-- controller/htmlreport.go: the charts of a plan's runs as a page of HTML and JavaScript. What is
-- printed is a list of texts, each with where it goes: the report's writer, or standard output.
pub mod Collect
pub mod Rows
pub mod Tags
pub mod Series
use schedbench.Base.{
  ℕ, zero, suc, List, [], ◌∷◌, ◌++◌, Option, none, some, Bool, if◌then◌else◌, ◌==◌, length, Text,
  codes, show_nat,
}
use schedbench.Base.Int.{ℤ, pos, ltb_ℤ}
use schedbench.Base.Outcome.{Outcome, returns, panics, ◌>>=◌, elems}
use schedbench.Bench.{
  WorkerReport, zero_report, WorkerSummary, WorkerSetSummary, BenchmarkRun, BenchmarkPlan,
}
use schedbench.Summary.{Float, Table, ProcessError, throughput, utilization, sec}
use schedbench.Summary.Loops.{process}
use schedbench.PlanRun.{with_runs}

pub record OptionAxis (F : Type 0) : Type 0 where
  pub title : Text
  pub min_value : F
  pub max_value : F

pub record Options (F : Type 0) : Type 0 where
  pub title : Text
  pub h_axis : OptionAxis F
  pub v_axis : OptionAxis F
  pub legend : Text

pub record Point (F : Type 0) : Type 0 where
  pub x : F
  pub y : F

pub record RunRaw (F : Type 0) : Type 0 where
  pub tag : Text
  pub title : Text
  pub h_title : Text
  pub v_title : Text
  pub points : List (List (Point F))

-- What is printed, and where.
pub data Chunk : Type 0 where
  written printed : Text → Chunk

-- `%f`, and `json.Marshal` of the options.
pub record Format (F E : Type 0) : Type 0 where
  pub show_float : F → Text
  pub marshal : Options F → Option E × Text

module _ {F E : Type 0} (fl : Float F) (fm : Format F E) where
  abbrev pub zero_axis : OptionAxis F
  zero_axis = record { title = []; min_value = fl.zero; max_value = fl.zero }

  unfoldable pub options_javascript : Options F → Text → Option E × List Chunk
  options_javascript options tag =
      let (err, options_json) = fm.marshal options in
      elim err [
        | some e ↦ (some e, [])
        | none ↦ (
          none,
          written (codes "        var " ++ tag ++ codes "opt = ")
              ∷ written options_json
              ∷ written (codes ";\n")
              ∷ [],
        )
      ]

  -- `for i := 0; i < max; i++`, with the rounds that are left.
  unfoldable pub point_cells : Point F → ℕ → ℕ → ℕ → List Chunk
  point_cells p id zero i = []
  point_cells p id (suc rounds) i =
      let rest = point_cells p id rounds (suc i) in
      (if i == id then written (codes ", " ++ fm.show_float p.y) else written (codes ", null"))
      ∷ rest

  -- `func (p *Point) OutputJson(w io.Writer, id int, max int)`
  unfoldable pub point_json : Point F → ℕ → ℕ → List Chunk
  unfolding point_cells
  point_json p id max =
      written (codes "            [" ++ fm.show_float p.x) ∷ point_cells p id max 0
      ++ written (codes "],\n") ∷ []

  unfoldable pub raw_html : RunRaw F → List Chunk
  raw_html d =
      written (codes "    <div class='scatterplot' id='scatterplot" ++ d.tag ++ codes "'></div>\n")
      ∷ []

  -- The columns, one for each of `d.Points`.
  unfoldable pub columns : Text → ℕ → List (List (Point F)) → List Chunk
  unfolding show_nat
  columns tag i [] = []
  columns tag i (ps ∷ points) =
      printed (
        codes "        "
        ++ tag
        ++ codes "data.addColumn('number', 'Worker "
        ++ show_nat i
        ++ codes "');\n")
      ∷ columns tag (suc i) points

  -- The rows of the points of series `i`.
  unfoldable pub series_rows : ℕ → ℕ → List (Point F) → List Chunk
  unfolding point_json
  series_rows max i [] = []
  series_rows max i (p ∷ ps) = point_json p i max ++ series_rows max i ps

  unfoldable pub rows : ℕ → ℕ → List (List (Point F)) → List Chunk
  unfolding series_rows
  rows max i [] = []
  rows max i (ps ∷ points) = series_rows max i ps ++ rows max (suc i) points

  -- `func (d *RunRaw) OutputJavascript(w io.Writer)`
  unfoldable pub raw_javascript : RunRaw F → Option E × List Chunk
  unfolding options_javascript columns rows
  raw_javascript d =
      let options : Options F = record {
        title = d.title;
        h_axis = record zero_axis { title = d.h_title };
        v_axis = record zero_axis { title = d.v_title };
        legend = [];
      } in
      let (err, opt) = options_javascript options d.tag in
      elim err [
        | some e ↦ (some e, opt)
        | none ↦ (
          none,
          opt
              ++ printed (
                  codes "        var "
                  ++ d.tag
                  ++ codes "data = new google.visualization.DataTable();\n")
                ∷ printed (codes "        " ++ d.tag ++ codes "data.addColumn('number', 'Time');\n")
                ∷ columns d.tag 0 d.points
              ++ printed (codes "        " ++ d.tag ++ codes "data.addRows([\n")
                ∷ rows (length d.points) 0 d.points
              ++ printed (codes "          ]);\n")
                ∷ printed (
                    codes "        var "
                    ++ d.tag
                    ++ codes
                        "chart = new google.visualization.ScatterChart(document.getElementById('scatterplot"
                    ++ d.tag
                    ++ codes "'));\n")
                ∷ printed (
                    codes "        "
                    ++ d.tag
                    ++ codes "chart.draw("
                    ++ d.tag
                    ++ codes "data, "
                    ++ d.tag
                    ++ codes "opt);\n\n")
                ∷ [],
        )
      ]

  -- What `Output` prints before, between and after the charts.
  abbrev pub page_start : Text
  page_start =
      codes
        "<html>\n  <head>\n    <style>\n      .scatterplot {\n      margin:auto;\n      width: 100vw;\n      height: 60vw;\n      }\n\n      .empty {\n      margin: auto;\n      }\n    </style>\n    <script type=\"text/javascript\" src=\"https://www.gstatic.com/charts/loader.js\"></script>\n    <script type=\"text/javascript\">\n      google.charts.load('current', {'packages':['corechart']});\n      google.charts.setOnLoadCallback(drawCharts);\n      function drawCharts() {\n"

  abbrev pub page_middle : Text
  page_middle = codes "      }\n    </script>\n  </head>\n  <body>\n"

  abbrev pub page_end : Text
  page_end = codes "  </body>\n</html>\n"

  -- The loop over `rpt.Raw` that prints the charts' code.
  unfoldable pub charts : List (RunRaw F) → Option E × List Chunk
  unfolding raw_javascript
  charts [] = (none, [])
  charts (d ∷ raw) =
      let (err, out) = raw_javascript d in
      let (err', rest) = charts raw in
      elim err [ some e ↦ (some e, out) | none ↦ (err', out ++ rest) ]

  unfoldable pub divs : List (RunRaw F) → List Chunk
  unfolding raw_html
  divs [] = []
  divs (d ∷ raw) = raw_html d ++ divs raw

  -- `func (rpt *HTMLReport) Output(w io.Writer)`
  unfoldable pub output : List (RunRaw F) → Option E × List Chunk
  unfolding charts divs
  output raw =
      let (err, code) = charts raw in
      elim err [
        | some e ↦ (some e, written page_start ∷ code)
        | none ↦ (
          none,
          written page_start ∷ code ++ written page_middle ∷ divs raw ++ written page_end ∷ [],
        )
      ]
