-- ===== src/Lib.antt =====
-- The services and the documentation pages of crunchy-containers.
--
-- The repository builds container images of PostgreSQL, which shell scripts start and watch. Beside
-- them run services written in Go: a vacuum job, a scheduler of jobs, a bridge from Docker to the
-- names of Consul, and a collector of metrics. The rest is JavaScript, the scripts of the
-- documentation pages. docs/htmldoc/javascripts/asciidoc.js builds the table of contents and the
-- footnotes of a page from its headings and spans, each time the page is loaded. docs/bootstrap.js
-- holds the widgets of the pages: classes that keep a state of their own, change classes,
-- attributes and inline styles of their elements, and wait for the ends of transitions.
--
-- The parts and their files:
-- - Prelude, Prelude/Tests, Prelude/Lists, Prelude/Text, Prelude/Int: Boolean tests, lists, texts
--   as lists of character codes, and integers, shared by all parts.
-- - Asciidoc/Dom: the elements, attributes and nodes that the first script reads and writes. An
--   element is a record of its tag and attributes, a tree has two mutual data types.
-- - Asciidoc/Toc: `asciidoc.toc` with `tocEntries`, `getText` and the loop that deletes the old
--   entries. The page is the children of `#toc` and the tree `#content`. Toc/Levels is about the
--   entries, Toc/Reload about a second run.
-- - Asciidoc/Footnotes: `asciidoc.footnotes`: the loop that numbers the footnotes, its two regular
--   expressions, and the loop that resolves the references. A TypeError is the result `none`.
--   Footnotes/Numbers is about the first run, Footnotes/Reload about the second.
-- - Asciidoc/Install: `asciidoc.install`, which runs both generators while the page is loading.
--   Install/Settled is about how often they run.
-- - Bootstrap/Carousel: the class `Carousel` with the handlers of `slid`, which `to` leaves
--   waiting; the ends, keys and events are in Carousel/Events. Carousel/Index is the arithmetic of
--   `getItemForDirection`, Carousel/Slides and Carousel/Moves are about `slide`, Carousel/Blocked
--   about steps that do not move, Carousel/Waiting about handlers of `slid` without animation,
--   Carousel/Timers about `cycle` and `pause` in every order of events.
-- - Bootstrap/Collapse: the class `Collapse`, one panel and a group of panels that share a parent.
--   Collapse/Classes is about one panel, Collapse/Accordion about the group. Collapse/Plugin is the
--   constructor and the plug-in, Collapse/Clicks about clicks and first calls.
-- - Bootstrap/Dropdown: the dropdown menus of a page: `clearMenus`, `toggle` and `keydown`.
--   Dropdown/Menus is about clicks, Dropdown/Keys about keys.
-- - Bootstrap/Modal: the class `Modal`, its backdrop, its handlers, and what it changes of the
--   body; the ends, keys and clicks are in Modal/Events. Modal/States says what a closed and an
--   open dialog are, Modal/Cycle is about a dialog that is shown and hidden, Modal/Interrupted
--   about requests at the wrong time.
-- - Bootstrap/Affix: the class `Affix`: the state of an element that is pinned while the page
--   scrolls, over the checks of its position. Affix/Marks is about its classes, Affix/Zones and
--   Affix/End about where it is pinned.
-- - Bootstrap/ScrollSpy: the class `ScrollSpy`: which section of the page is the active one. The
--   links that the page has, and the sort of the browser, are arguments. ScrollSpy/Sections is
--   about the loop of `process`, ScrollSpy/Position about the whole of it.
-- - Bootstrap/Placement: the geometry of the class `Tooltip`, in half units of length.
--   Placement/Inside is about the viewport, Placement/Beside about the element.
-- - Bootstrap/Tooltip: the class `Tooltip`: hover states, timer, transitions, the last two in
--   Tooltip/Events. Tooltip/States says what a hidden and a shown tip are, Tooltip/Hover is about
--   the pointer, Tooltip/Delay about requests that come too early, Tooltip/Uid is `getUID`,
--   Tooltip/Title the title and the triggers.
-- - Bootstrap/Tab: the class `Tab`. Tab/Selected is about the items that `activate` changes,
--   Tab/Requests about sequences of requests.
-- - Bootstrap/Transition: the support of transitions, on which the widgets wait. Transition/Once is
--   about a callback that waits.
-- - Bootstrap/Button: the class `Button`. Button/Restored is about `setState`, Button/Group about
--   `toggle`.
-- - Bootstrap/Target: the target that an element names by its attributes, Target/Fragment about the
--   regular expression in it.
-- - Bootstrap/Alert: the class `Alert`. Alert/Phases compares it with a machine of three phases.
-- - Cookie: docs/htmldoc/javascripts/jquery.cookie.js: reading, writing and removing of cookies
--   over the text `document.cookie`. Cookie/Calls are the calls. Cookie/Split and Cookie/Coding are
--   about its parts, Cookie/ReadBack about cookies that were written, Cookie/Unreadable about those
--   of others.
-- - Themes: docs/htmldoc/javascripts/jquery.bootstrapThemeSwitcher.js, a client of the cookies.
--   Themes/Control is the control, with themes that are added and those of the server.
--   Themes/Exclusions is about the list of themes, Themes/Links about the style sheets,
--   Themes/Stored about a theme that is chosen and loaded again.
-- - Services/Checks, Services/Parse: how the services read their environment, and numbers of Go.
-- - Services/Vacuum: vacuumapi/vacuumapi.go and vacuum/vacuum.go. Vacuum/Settings is about
--   `GetParms`, Vacuum/Words about the statement.
-- - Services/Dba: dba/dbaserver.go and dbaapi. Dba/Safety is about the runs of the two jobs.
-- - Services/Dns: dnsbridgeapi/dnsbridgeapi.go, dnsbridge. Dns/Config are the settings,
--   Dns/Registry compares what Consul knows with the containers that run.
-- - Services/Collect: collectapi and collect/collectserver.go. Collect/Groups are the groups of
--   metrics, Collect/Push the gateway, Collect/Config the settings. Collect/Totals,
--   Collect/Failures and Collect/Labelled are about the groups, Collect/Gateway about the pushes,
--   Collect/Poll about the interval.
-- - Scripts/Shell: the variables, the commands and the host of the scripts that start a server.
-- - Scripts/Start: bin/start.sh, bin/start-pg-wrapper.sh, bin/check-for-secrets.sh: the start of a
--   database server as the commands that it runs on a host. Start/Kept is about a directory that
--   has a database, Start/Initialised about the first and the second start of a master.
-- - Scripts/Watch: bin/watch/start-watch.sh: the watch over the master of a cluster. Watch/Failover
--   is about one failover, Watch/Lost about the rounds behind one.
--
-- How the code is written down: a method that changes `this` and its elements is a function from
-- the state to the state. What a listener of an event may do to a request is prevent it: a Boolean
-- argument. A callback that waits for the end of a transition is a field of the state (`pending`,
-- `transit`, `deferred`), and the end of the transition is an operation of its own, so that every
-- order of requests and ends is a sequence of operations. What the browser measures, and the
-- options of a widget, are records of arguments. Docker, Consul, OpenShift, PostgreSQL, files,
-- shell commands and the gateway of Prometheus are arguments, with what is documented of them as
-- named hypotheses.
--
-- Loops are structural recursion. One loop that takes fuel is the printing of a number in decimal
-- digits: its fuel is the number and one more, which is enough since each round divides by ten. The
-- search for an unused id takes as many rounds as the longest id has characters, and one more,
-- which is enough since each round makes the id longer. The loop over the themes has as many rounds
-- as the list has themes at its start, like `$.each`, also where it removes some. The levels of the
-- table of contents are at most 8, a single digit in the regular expression; the source asks for 1
-- to 4. Texts are lists of code points, which have no lone surrogates.
--
-- Not modelled: jQuery, the shims for old browsers, the minified copies and the plug-ins that the
-- pages only load; the widget Popover, the wrappers that make the other classes jQuery plug-ins,
-- the handlers that these bind to the document, the report server badger, and the other shell
-- scripts and the configuration of the images: these run and configure other programs.
pub mod Prelude
pub mod Asciidoc
pub mod Bootstrap
pub mod Cookie
pub mod Themes
pub mod Scripts
pub mod Services
